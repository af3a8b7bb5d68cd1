-- ===== src/Profiles/SimpleGatt/Laws.antt =====
-- What the code relies on of the vendor's simple profile.
use cc2745_repo.Prelude.{ℕ, ◌≡◌, ◌≢◌, ◌⊎◌, List, [], ◌∷◌}
use cc2745_repo.Profiles.SimpleGatt.{SimpleProfile}

abbrev pub Differ : ℕ → List ℕ → Type 0
Differ x [] = Unit
Differ x (y ∷ ys) = (x ≢ y) × Differ x ys

abbrev pub Distinct : List ℕ → Type 0
Distinct [] = Unit
Distinct (x ∷ xs) = Differ x xs × Distinct xs

-- The first four characteristics hold one byte each.
abbrev pub HoldsByte : SimpleProfile → ℕ → Type 0
HoldsByte p c = (c ≡ p.char1) ⊎ (c ≡ p.char2) ⊎ (c ≡ p.char3) ⊎ (c ≡ p.char4)

-- The characteristics are different ones. Reading changes nothing. One byte may be stored in each
-- of the first four, is then read, and leaves the others alone, as storing the fifth and
-- registering callbacks do.
pub record IsSimpleProfile (p : SimpleProfile) : Type 0 where
  pub distinct : Distinct (p.char1 ∷ p.char2 ∷ p.char3 ∷ p.char4 ∷ p.char5 ∷ [])
  pub get_keeps : (c : ℕ) (s : p.State) → (p.get_parameter c s).1 ≡ s
  pub set_byte : (c v : ℕ) (s : p.State) → HoldsByte p c → (p.set_parameter c (v ∷ []) s).0 ≡ 0
  pub get_set :
      (c v : ℕ) (s : p.State)
      → HoldsByte p c
      → (p.get_parameter c (p.set_parameter c (v ∷ []) s).1).0 ≡ (0, v)
  pub get_set_ne :
      (c d : ℕ) (value : List ℕ) (s : p.State)
      → c ≢ d
      → (p.get_parameter d (p.set_parameter c value s).1).0 ≡ (p.get_parameter d s).0
  pub get_register :
      (c : ℕ) (s : p.State)
      → (p.get_parameter c (p.register_app_cbs s).1).0 ≡ (p.get_parameter c s).0
