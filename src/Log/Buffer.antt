-- ===== src/Log/Buffer.antt =====
-- A `uint8_t` buffer: stores outside it are faults. The constants are those of log_define.h.

use Prim.Native.String.{String}
use Prim.Native.Char.{code}
use cc2745_repo.Prelude.{
  ℕ, zero, suc, ◌+◌, ◌*◌, ◌-◌, ◌<◌, ◌≤◌, ◌≡◌, ◌∙◌, ◌⊎◌, inl, inr, refl, ap, List, [], ◌∷◌, arith,
  ltb, if◌then◌else◌, lt→ltb, length, length-set, get_elem?, set, get_elem?-set_self,
  get_elem?-set_ne, ok, fault, Cmd, ◌>>◌,
}

abbrev pub log_buf_size_offset : ℕ
log_buf_size_offset = 40

abbrev pub log_caption_size_max : ℕ
log_caption_size_max = 20

abbrev pub log_hex_count_max : ℕ
log_hex_count_max = 100

abbrev pub log_prepend_size_max : ℕ
log_prepend_size_max = 20

abbrev pub log_buff_size_max : ℕ
log_buff_size_max = log_hex_count_max * 3 + log_caption_size_max + 12 + log_prepend_size_max

abbrev pub log_content_size_max : ℕ
log_content_size_max = log_buff_size_max - log_prepend_size_max - 2

-- The buffer that each print function declares.
abbrev pub buffer_size : ℕ
buffer_size = log_buff_size_max + log_buf_size_offset

abbrev pub Buffer : Type 0
Buffer = List ℕ

-- The bytes of an ASCII literal.
abbrev pub bytes : String → List ℕ
bytes String.[] = []
bytes (String.◌∷◌ c s) = code c ∷ bytes s

-- `p_buffer[i] = b`
unfoldable pub put : ℕ → ℕ → Cmd Buffer (Unit {0})
put i b buf = if ltb i (length buf) then ok tt (set buf i b) else fault

-- Stores at `i`, `i + 1` and so on, also those of a `memcpy`.
unfoldable pub put_all : ℕ → List ℕ → Cmd Buffer (Unit {0})
unfolding put
put_all i [] buf = ok tt buf
put_all i (b ∷ bs) buf = (do put i b; put_all (suc i) bs) buf

-- `new` is `old` with `text` from index `i` on.
pub record Written (i : ℕ) (text : List ℕ) (old new : Buffer) : Type 0 where
  pub size : length new ≡ length old
  pub inside : (k : ℕ) → k < length text → get_elem? new (i + k) ≡ get_elem? text k
  pub outside : (j : ℕ) → (j < i) ⊎ (i + length text ≤ j) → get_elem? new j ≡ get_elem? old j

module _ (i b : ℕ) (bs : List ℕ) (old new : Buffer) (lt : i < length old)
    (w : Written (suc i) bs (set old i b) new) where
  Written-inside : (k : ℕ) → k < length (b ∷ bs) → get_elem? new (i + k) ≡ get_elem? (b ∷ bs) k
  Written-inside zero h =
      let at : i + zero ≡ i = omega arith in
      ap (λ n. get_elem? new n) at ∙ w.outside i (inl (omega arith)) ∙ get_elem?-set_self old i b lt
  Written-inside (suc k) h =
      let at : i + suc k ≡ suc i + k = omega arith in
      ap (λ n. get_elem? new n) at ∙ w.inside k (omega arith)

  Written-outside :
      (j : ℕ) → (j < i) ⊎ (i + length (b ∷ bs) ≤ j) → get_elem? new j ≡ get_elem? old j
  Written-outside j (inl h) =
      w.outside j (inl (omega arith)) ∙ get_elem?-set_ne old i j b (omega arith)
  Written-outside j (inr h) =
      w.outside j (inr (omega arith)) ∙ get_elem?-set_ne old i j b (omega arith)

  Written-cons : Written i (b ∷ bs) old new
  Written-cons = record {
    size = w.size ∙ length-set old i b;
    inside = Written-inside;
    outside = Written-outside;
  }

-- Text that fits is written, and nothing else.
pub put_all-Written :
    (i : ℕ) (text : List ℕ) (buf : Buffer)
    → i + length text ≤ length buf
    → (new : Buffer) × (put_all i text buf ≡ ok tt new) × Written i text buf new
unfolding put_all put
put_all-Written i [] buf h = (
  buf,
  refl,
  record { size = refl; inside = λ k lt. absurd (omega arith); outside = λ j o. refl },
)
put_all-Written i (b ∷ bs) buf h =
    let (new, run, w) =
      put_all-Written (suc i) bs (set buf i b) (omega (arith, length-set buf i b)) in
    let fits = lt→ltb i (length buf) (omega arith) in
    (new, rw fits run, Written-cons i b bs buf new (omega arith) w)
