-- ===== src/Ipc/Mailbox/Draining.antt =====
-- The loop of `ipc_close`, src/ipc.rs, that frees the queued pages.
use rynex.Prelude.{
  ℕ, zero, suc, ◌+◌, ◌%◌, ◌≤◌, ◌<◌, ◌≡◌, ◌≢◌, refl, ap, ap₂, ◌∙◌, arith, List, [], ◌∷◌, ◌==◌,
  if◌then◌else◌,
}
use rynex.Prelude.Ring.{window, window-pop}
use rynex.Buddy.State.{Buddy}
use rynex.Buddy.Free.{free}
use rynex.Ipc.State.{Ipc, Caller, port_slots}
use rynex.Ipc.Pages.{free_page}
use rynex.Ipc.Ports.{drop_slot, drain}

-- The pages of a queue given back one after the other; a page 0 is none.
pub free_all : Caller → List ℕ → Buddy → Buddy
free_all env [] b = b
free_all env (page ∷ pages) b = free_all env pages (if page == 0 then b else free page 0 env.site b)

dropped-buddy :
    (env : Caller) (i k : ℕ) (s : Ipc)
    → (drop_slot env i k s).buddy ≡ (
        if (s.ports i).slots k == 0 then s.buddy else free ((s.ports i).slots k) 0 env.site s.buddy)
unfolding drop_slot free_page
dropped-buddy env i k s = ground arith

dropped_head :
    (env : Caller) (i k : ℕ) (s : Ipc) → ((drop_slot env i k s).ports i).head ≡ (s.ports i).head
unfolding drop_slot free_page
dropped_head env i k s = ground arith

dropped-window :
    (env : Caller) (i h n : ℕ) (s : Ipc)
    → n < port_slots
    → window port_slots ((drop_slot env i (h % port_slots) s).ports i).slots (h + 1) n
      ≡ window port_slots (s.ports i).slots (h + 1) n
unfolding drop_slot free_page
dropped-window env i h n s lt =
    ground (arith, window-pop port_slots (s.ports i).slots h n (h % port_slots) 0 lt refl)

dropped_other :
    (env : Caller) (i k j : ℕ) (s : Ipc) → i ≢ j → (drop_slot env i k s).ports j ≡ s.ports j
unfolding drop_slot free_page
dropped_other env i k j s ne = ground (arith, ne)

dropped_next :
    (env : Caller) (i k : ℕ) (s : Ipc) → (drop_slot env i k s).next_port_id ≡ s.next_port_id
unfolding drop_slot free_page
dropped_next env i k s = ground arith

pub drain_other :
    (env : Caller) (n j i k : ℕ) (s : Ipc) → i ≢ k → (drain env n j i s).ports k ≡ s.ports k
unfolding drain
drain_other env zero j i k s ne = refl
drain_other env (suc n) j i k s ne =
    drain_other env n (j + 1) i k (drop_slot env i (((s.ports i).head + j) % port_slots) s) ne
    ∙ dropped_other env i (((s.ports i).head + j) % port_slots) k s ne

pub drain_next :
    (env : Caller) (n j i : ℕ) (s : Ipc) → (drain env n j i s).next_port_id ≡ s.next_port_id
unfolding drain
drain_next env zero j i s = refl
drain_next env (suc n) j i s =
    drain_next env n (j + 1) i (drop_slot env i (((s.ports i).head + j) % port_slots) s)
    ∙ dropped_next env i (((s.ports i).head + j) % port_slots) s

-- The loop gives back exactly the pages of the window, in order.
pub drain-buddy :
    (env : Caller) (n j i : ℕ) (s : Ipc)
    → n ≤ port_slots
    → (drain env n j i s).buddy
      ≡ free_all env (window port_slots (s.ports i).slots ((s.ports i).head + j) n) s.buddy
unfolding drain free_all
drain-buddy env zero j i s le = refl
drain-buddy env (suc n) j i s le =
    drain-buddy env n (j + 1) i s' (omega arith)
    ∙ ap₂ (λ h b. free_all env (window port_slots (s'.ports i).slots h n) b) same_start
        (dropped-buddy env i (((s.ports i).head + j) % port_slots) s)
    ∙ ap (λ q. free_all env q freed) (dropped-window env i ((s.ports i).head + j) n s (omega arith))
  where
    s' : Ipc
    s' = drop_slot env i (((s.ports i).head + j) % port_slots) s

    freed : Buddy
    freed =
        if (s.ports i).slots (((s.ports i).head + j) % port_slots) == 0
        then s.buddy
        else free ((s.ports i).slots (((s.ports i).head + j) % port_slots)) 0 env.site s.buddy

    same_start : (s'.ports i).head + (j + 1) ≡ (s.ports i).head + j + 1
    same_start = omega (arith, dropped_head env i (((s.ports i).head + j) % port_slots) s)
