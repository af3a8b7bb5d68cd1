-- ===== src/LinkedList.antt =====
-- ccs_project/src/lib/linked_list/linked_list.c: a doubly linked list whose nodes come from an
-- array of slots or from the heap. State is the struct with the memory behind its pointers. Slots
-- (initialisation, allocation), Ends (the list) and Sort have the operations, Heap the lemmas on
-- the nodes of a heap list.
pub mod State
pub mod Slots
pub mod Ends
pub mod Sort
pub mod Heap
mod Tests
