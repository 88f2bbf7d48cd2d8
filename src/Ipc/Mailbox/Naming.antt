-- ===== src/Ipc/Mailbox/Naming.antt =====
-- Names in the port table of src/ipc.rs: a name stored is found again.
use rynex.Prelude.{
  ℕ, zero, suc, ◌+◌, ◌≤◌, ◌<◌, ◌≡◌, refl, ap, sym, subst, ◌∙◌, arith, true, false, List, [], ◌∷◌,
  none, some, update, update_self, update_ne, length, true_ne_false,
}
use native.Mathlib.Decide.{ℕ_discrete}
use rynex.Prelude.Find.{find_index, Finds, find_index-Finds, find_index_only}
use rynex.Ipc.State.{Ipc, max_ports, name_len}
use rynex.Ipc.Ports.{has_name, name_eq, store_name, slice, port_idx_by_name_locked, create_at}
use rynex.Ipc.Mailbox.{IsWell}
use rynex.Ipc.Mailbox.Creating.{IsFree, other_kept}

pub length-slice : (mem : ℕ → ℕ) (a n : ℕ) → length (slice mem a n) ≡ n
unfolding slice
length-slice mem a zero = refl
length-slice mem a (suc n) = ap suc (length-slice mem (a + 1) n)

store_before : (f : ℕ → ℕ) (j : ℕ) (cs : List ℕ) (k : ℕ) → k < j → store_name f j cs k ≡ f k
unfolding store_name
store_before f j [] k lt = refl
store_before f j (c ∷ cs) k lt =
    store_before (update f j c) (j + 1) cs k (omega arith) ∙ update_ne f c (omega (arith, lt))

store_behind :
    (f : ℕ → ℕ) (j : ℕ) (cs : List ℕ) (k : ℕ) → j + length cs ≤ k → store_name f j cs k ≡ f k
unfolding store_name
store_behind f j [] k le = refl
store_behind f j (c ∷ cs) k le =
    store_behind (update f j c) (j + 1) cs k (omega arith) ∙ update_ne f c (omega (arith, le))

name_eq-store_name : (f : ℕ → ℕ) (j : ℕ) (cs : List ℕ) → name_eq (store_name f j cs) j cs ≡ true
unfolding name_eq store_name
name_eq-store_name f j [] = refl
name_eq-store_name f j (c ∷ cs) = ground (
  arith,
  store_before (update f j c) (j + 1) cs j (omega arith),
  update_self f j c,
  name_eq-store_name (update f j c) (j + 1) cs,
)

created-has_name :
    (name : List ℕ) (s : Ipc) (i : ℕ)
    → IsWell s
    → IsFree s i
    → has_name name ((create_at name i s).1.ports i) ≡ true
unfolding create_at has_name
created-has_name name s i v f = ground (
  arith,
  name_eq-store_name (s.ports i).name 0 name,
  store_behind (s.ports i).name 0 name (length name) (omega arith),
  v.blank i (length name) f.1,
)

-- Behind a lookup that found nothing, the name leads to the port made.
pub created-named :
    (name : List ℕ) (s : Ipc) (i : ℕ)
    → IsWell s
    → IsFree s i
    → length name ≤ name_len
    → port_idx_by_name_locked name s ≡ none
    → port_idx_by_name_locked name (create_at name i s).1 ≡ some i
unfolding port_idx_by_name_locked
created-named name s i v f le missing = ground (arith, found)
  where
    before : find_index (λ j. has_name name (s.ports j)) max_ports 0 ≡ none
    before = ground (arith, missing)

    unnamed : (k : ℕ) → k < max_ports → has_name name (s.ports k) ≡ false
    unnamed k lt =
        subst (Finds (λ j. has_name name (s.ports j)) max_ports 0) before
          (find_index-Finds (λ j. has_name name (s.ports j)) max_ports 0) k (omega arith)
          (omega arith)

    found : find_index (λ j. has_name name ((create_at name i s).1.ports j)) max_ports 0 ≡ some i
    found =
        find_index_only (λ j. has_name name ((create_at name i s).1.ports j)) max_ports 0 i
          (omega arith) (omega (arith, f.0)) (created-has_name name s i v f)
          (λ k k_in lt h. elim (ℕ_discrete i k) [
            | yes e ↦ sym e
            | no ne ↦ absurd (
                true_ne_false (
                  sym h
                  ∙ ap (has_name name) (other_kept name s i v f k ne)
                  ∙ unnamed k (omega arith)))
          ])
