-- ===== src/Ipc/RoundTrip.antt =====
-- What is written into a page of src/ipc.rs is what is read out of it: messages and replies.
use rynex.Prelude.{
  ℕ, ◌+◌, ◌-◌, ◌%◌, ◌^◌, ◌<◌, ◌≡◌, ◌≢◌, ap, ◌∙◌, arith, Bool, true, false, ◌||◌, update_self, min,
}
use rynex.Ipc.State.{
  Ipc, MsgHeader, Caller, Ret, max_replies, ipc_msg_max, ipc_msg_header, copy_bytes,
}
use rynex.Ipc.Pages.{free_page, fill_page, deliver_ex}
use rynex.Ipc.Reply.{ipc_reply}

copied_at :
    (src dst n a : ℕ) (mem : ℕ → ℕ) → a < n → copy_bytes src dst n mem (dst + a) ≡ mem (src + a)
copied_at src dst n a mem lt = let e : dst + a - dst ≡ a = omega arith in ground (arith, e)

-- Whether the slot waits for its answer.
abbrev pub IsWaiting : Ipc → ℕ → Type 0
IsWaiting s id = (id < max_replies) × ((s.replies id).used ≡ true) × ((s.replies id).done ≡ false)

replied_slot :
    (id buf len : ℕ) (s : Ipc)
    → IsWaiting s id
    → (ipc_reply id buf len s).1.replies id
      ≡ record (s.replies id) { len = min len ipc_msg_max; done = true }
unfolding ipc_reply
replied_slot id buf len s w =
    let small : min len ipc_msg_max % 2 ^ 32 ≡ min len ipc_msg_max = omega arith in
    ground (arith, w.0, w.1, w.2, small)

answered :
    (id buf len : ℕ) (t : Ipc)
    → id < max_replies
    → (t.replies id).used ≡ true
    → (t.replies id).done ≡ true
    → ipc_reply id buf len t ≡ (Ret.ok 0, t)
unfolding ipc_reply
answered id buf len t lt u d = ground (arith, u, d)

-- A token answered once takes no second answer: the call reports 0 and changes nothing.
pub ipc_reply_again :
    (id buf len buf' len' : ℕ) (s : Ipc)
    → IsWaiting s id
    → ipc_reply id buf' len' (ipc_reply id buf len s).1 ≡ (Ret.ok 0, (ipc_reply id buf len s).1)
ipc_reply_again id buf len buf' len' s w =
    answered id buf' len' (ipc_reply id buf len s).1 w.0
      (ap (λ r. r.used) (replied_slot id buf len s w) ∙ w.1)
      (ap (λ r. r.done) (replied_slot id buf len s w))

filled_page :
    (env : Caller) (k : Bool) (buf len page : ℕ) (h : MsgHeader) (s : Ipc)
    → k || env.user_range_valid buf len false ≡ true
    → let (filled, t) = fill_page env k buf len h page s in
      (filled ≡ true)
      × (t.headers page ≡ h)
      × ((a : ℕ) → a < len → t.bytes (page + ipc_msg_header + a) ≡ s.bytes (buf + a))
unfolding fill_page free_page
filled_page env k buf len page h s valid = (
  ground (arith, valid),
  ground (arith, valid, update_self s.headers page h),
  λ a lt. ground (arith, valid, copied_at buf (page + ipc_msg_header) len a s.bytes lt),
)

delivered_page :
    (env : Caller) (k : Bool) (out max_len page : ℕ) (t : Ipc)
    → out ≢ 0
    → k || env.user_range_valid out (min (t.headers page).len max_len) true ≡ true
    → let (answer, u) = deliver_ex env k out max_len page t in
      (answer ≡ (Ret.ok (t.headers page).len, (t.headers page).reply_id))
      × ((a : ℕ)
          → a < min (t.headers page).len max_len
          → u.bytes (out + a) ≡ t.bytes (page + ipc_msg_header + a))
unfolding deliver_ex free_page
delivered_page env k out max_len page t ne valid = (
  ground (arith, ne, valid),
  λ a lt. ground (
    arith,
    ne,
    valid,
    copied_at (page + ipc_msg_header) out (min (t.headers page).len max_len) a t.bytes lt,
  ),
)

-- A message filled into a page and then delivered, where each buffer lies in kernel space or is
-- valid user memory, reports its length and its token, and leaves the sender's bytes in the
-- receiver's buffer, as far as that goes.
pub deliver_ex-fill_page :
    (env env' : Caller) (k k' : Bool) (buf len out max_len page : ℕ) (h : MsgHeader) (s : Ipc)
    → h.len ≡ len
    → out ≢ 0
    → k || env.user_range_valid buf len false ≡ true
    → k' || env'.user_range_valid out (min len max_len) true ≡ true
    → let (filled, t) = fill_page env k buf len h page s in
      let (answer, u) = deliver_ex env' k' out max_len page t in
      (filled ≡ true)
      × (answer ≡ (Ret.ok len, h.reply_id))
      × ((a : ℕ) → a < min len max_len → u.bytes (out + a) ≡ s.bytes (buf + a))
deliver_ex-fill_page env env' k k' buf len out max_len page h s e ne valid valid' =
    let t = (fill_page env k buf len h page s).1 in
    let filled = filled_page env k buf len page h s valid in
    let same : (t.headers page).len ≡ len = ap (λ g. g.len) filled.1 ∙ e in
    let valid_out : k' || env'.user_range_valid out (min (t.headers page).len max_len) true ≡ true =
      ap (λ n. k' || env'.user_range_valid out (min n max_len) true) same ∙ valid' in
    let delivered = delivered_page env' k' out max_len page t ne valid_out in
    (
      filled.0,
      delivered.0
          ∙ ap (λ g. (Ret.ok g.len, g.reply_id)) filled.1
          ∙ ap (λ n. (Ret.ok n, h.reply_id)) e,
      λ a lt. delivered.1 a (omega (arith, lt, same)) ∙ filled.2 a (omega (arith, lt)),
    )
