-- ===== src/Ipc/Mailbox/Closing.antt =====
-- `ipc_close` of src/ipc.rs as a whole.
use rynex.Prelude.{
  ℕ, ◌≤◌, ◌<◌, ◌≡◌, ◌≢◌, inl, inr, refl, ap, sym, subst, ◌∙◌, arith, true, false, List, Option,
  none, some, ◌==◌, if◌then◌else◌, update, update_self, update_ne, Option-cases, true_ne_false,
}
use native.Mathlib.Decide.{ℕ_discrete}
use native.Mathlib.Nat.{add-zero}
use rynex.Prelude.Ring.{window}
use rynex.Prelude.Find.{find_index-congr, find_index_misses}
use rynex.Ipc.State.{Ipc, Port, Caller, Ret, port_slots, max_ports, empty_port}
use rynex.Ipc.Ports.{has_id, drain, close_at, ipc_close}
use rynex.Ipc.Mailbox.{IsTable, IsWell, mailbox, queue, port_at, port_at-Found, Found}
use rynex.Ipc.Mailbox.Draining.{free_all, drain-buddy, drain_other, drain_next}

-- The port of an id taken out of a table.
record IsWithout (i : ℕ) (ports ports' : ℕ → Port) : Type 0 where
  emptied : ports' i ≡ empty_port
  others : (j : ℕ) → i ≢ j → ports' j ≡ ports j

module _ (ports ports' : ℕ → Port) (next id i : ℕ) (v : IsTable ports next)
    (w : IsWithout i ports ports') (at : port_at id ports ≡ some i) where
  removed : (k : ℕ) → k < max_ports → has_id id (ports' k) ≡ false
  unfolding has_id Found
  removed k lt = elim (ℕ_discrete i k) [
    | yes e ↦ subst (λ j. has_id id (ports' j) ≡ false) e (ground (arith, w.emptied))
    | no ne ↦
        let found = port_at-Found id ports i at in
        ground (arith, w.others k ne, v.unique i k found.0 lt found.1, found.2, ne)
  ]

  same_port : (id' : ℕ) → id' ≢ id → port_at id' ports' ≡ port_at id' ports
  unfolding has_id Found
  same_port id' ne =
      find_index-congr (λ k. has_id id' (ports' k)) (λ k. has_id id' (ports k)) max_ports 0
        (λ k le lt. elim (ℕ_discrete i k) [
          | yes e ↦
              subst (λ j. has_id id' (ports' j) ≡ has_id id' (ports j)) e
                (ground (arith, w.emptied, (port_at-Found id ports i at).2, ne))
          | no differs ↦ ap (has_id id') (w.others k differs)
        ])

  removed-queue : (id' : ℕ) → queue id' ports' ≡ (if id' == id then none else queue id' ports)
  unfolding Found
  removed-queue id' = elim (ℕ_discrete id' id) [
    | yes e ↦ ground (
      arith,
      e,
      find_index_misses (λ k. has_id id (ports' k)) max_ports 0
          (λ k le lt. removed k (omega arith)),
    )
    | no ne ↦ elim (Option-cases (port_at id' ports)) [
      | inl o ↦ ground (arith, o, same_port id' ne)
      | inr (j, o) ↦
          let differs : i ≢ j = λ e. ne (
            sym (port_at-Found id' ports j o).2
            ∙ ap (λ k. (ports k).id) (sym e)
            ∙ (port_at-Found id ports i at).2) in
          ground (arith, o, same_port id' ne, w.others j differs)
    ]
  ]

  removed-IsTable : IsTable ports' next
  removed-IsTable = record {
    heads = λ k. elim (ℕ_discrete i k) [
      | yes e ↦ subst (λ j. (ports' j).head < port_slots) e (ground (arith, w.emptied))
      | no ne ↦ ground (arith, w.others k ne, v.heads k)
    ];
    counts = λ k. elim (ℕ_discrete i k) [
      | yes e ↦ subst (λ j. (ports' j).count ≤ port_slots) e (ground (arith, w.emptied))
      | no ne ↦ ground (arith, w.others k ne, v.counts k)
    ];
    fresh = λ k lt u. ground (arith, w.emptied, stays k u, v.fresh k lt);
    unique = λ j k lt lt' u u' e. ground (arith, stays j u, stays k u', v.unique j k lt lt');
    blank = λ k n u. elim (ℕ_discrete i k) [
      | yes e ↦ subst (λ j. (ports' j).name n ≡ 0) e (ground (arith, w.emptied))
      | no ne ↦ ground (arith, w.others k ne, v.blank k n)
    ];
  }
    where
      stays : (k : ℕ) → (ports' k).used ≡ true → ports' k ≡ ports k
      stays k u = elim (ℕ_discrete i k) [
        | yes e ↦ absurd (
            true_ne_false
              (sym u ∙ subst (λ j. (ports' j).used ≡ false) e (ap (λ p. p.used) w.emptied)))
        | no ne ↦ w.others k ne
      ]

-- What a call may do: nothing, where no port has the id; or give back the pages of its queue, in
-- order, and remove the queue.
abbrev pub Closes : Caller → ℕ → Ipc → Ret × Ipc → Type 0
Closes env id s (Ret.err e, s') = (s' ≡ s) × (queue id s.ports ≡ none)
Closes env id s (Ret.ok n, s') =
    ((q : List ℕ) × (queue id s.ports ≡ some q) × (s'.buddy ≡ free_all env q s.buddy))
    × ((id' : ℕ) → queue id' s'.ports ≡ (if id' == id then none else queue id' s.ports))
    × IsWell s'

closed-IsWithout :
    (env : Caller) (n i : ℕ) (s : Ipc)
    → IsWithout i s.ports (update (drain env n 0 i s).ports i empty_port)
closed-IsWithout env n i s = record {
  emptied = update_self (drain env n 0 i s).ports i empty_port;
  others = λ j ne. update_ne (drain env n 0 i s).ports empty_port ne ∙ drain_other env n 0 i j s ne;
}

close_at-Closes :
    (env : Caller) (id : ℕ) (s : Ipc) (o : Option ℕ)
    → IsWell s
    → port_at id s.ports ≡ o
    → Closes env id s (close_at env o s)
unfolding close_at
close_at-Closes env id s none v at = (refl, rw at refl)
close_at-Closes env id s (some i) v at =
    let without = closed-IsWithout env (s.ports i).count i s in
    let ports' = update (drain env (s.ports i).count 0 i s).ports i empty_port in
    (
      (
        mailbox (s.ports i),
        rw at refl,
        drain-buddy env (s.ports i).count 0 i s (v.counts i)
            ∙ ap
                (λ h.
                  free_all env (window port_slots (s.ports i).slots h (s.ports i).count) s.buddy)
                (add-zero (s.ports i).head),
      ),
      removed-queue s.ports ports' s.next_port_id id i v without at,
      subst (λ n. IsTable ports' n) (sym (drain_next env (s.ports i).count 0 i s))
          (removed-IsTable s.ports ports' s.next_port_id id i v without at),
    )

-- `ipc_close` at a well-formed table answers an error and changes nothing where no port has the id;
-- else it gives every page of the port's queue back to the allocator, in order, after which the id
-- has no queue and every other queue is as before; the table stays well formed.
pub ipc_close-Closes :
    (env : Caller) (id : ℕ) (s : Ipc) → IsWell s → Closes env id s (ipc_close env id s)
unfolding ipc_close
ipc_close-Closes env id s v = close_at-Closes env id s (port_at id s.ports) v refl
