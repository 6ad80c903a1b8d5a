-- ===== src/Telegram/Poller/Delivery.antt =====
-- gateway/telegram/poller.go: which updates reach the handler.
use aethercore.Prelude.{
  ℕ, ◌+◌, ◌≤◌, ◌<◌, ◌≡◌, refl, sym, ap, subst, ◌∙◌, arith, List, [], ◌∷◌, ◌++◌, append_assoc, All,
  select, leb,
}
use aethercore.Prelude.Result.{Result, ok, err}
use aethercore.Telegram.Poller.{
  Update, Poll, Server, first_poll, offset_after, after_poll, poll_all, run,
}

-- Updates in the order of their identifiers.
abbrev pub Ascending : List Update → Type 0
Ascending [] = Unit
Ascending (u ∷ us) = All (λ v. u.update_id < v.update_id) us × Ascending us

-- The updates that an offset leaves to be answered.
abbrev pub pending : ℕ → List Update → List Update
pending offset all = select (λ u. leb offset u.update_id) all

-- getUpdates as documented: the first of the updates that the offset leaves, in order, as many as
-- the server likes.
abbrev pub Answers : List Update → Server → Type 0
Answers all server =
    (offset : ℕ) (updates : List Update)
    → server offset ≡ ok updates
    → (later : List Update) × (pending offset all ≡ updates ++ later)

All-before :
    (u : Update) (n : ℕ) (us : List Update)
    → n ≤ u.update_id + 1
    → All (λ v. u.update_id < v.update_id) us
    → pending n us ≡ us
All-before u n [] h a = refl
All-before u n (v ∷ us) h a = ground (arith, a.0, All-before u n us h a.1)

-- The offset behind an update leaves what stands behind it.
pending-behind :
    (before : List Update) (u : Update) (later : List Update)
    → Ascending (before ++ u ∷ later)
    → pending (u.update_id + 1) (before ++ u ∷ later) ≡ later
pending-behind [] u later a = ground (arith, All-before u (u.update_id + 1) later (omega arith) a.0)
pending-behind (v ∷ before) u later a =
    ground (arith, between before a.0, pending-behind before u later a.1)
  where
    between :
        (xs : List Update)
        → All (λ w. v.update_id < w.update_id) (xs ++ u ∷ later)
        → v.update_id < u.update_id
    between [] h = h.0
    between (x ∷ xs) h = between xs h.1

pending-offset_after :
    (before updates later : List Update) (offset : ℕ)
    → Ascending (before ++ (updates ++ later))
    → pending offset (before ++ (updates ++ later)) ≡ updates ++ later
    → pending (offset_after offset updates) (before ++ (updates ++ later)) ≡ later
unfolding offset_after
pending-offset_after before [] later offset a h = h
pending-offset_after before (u ∷ updates) later offset a h =
    let same : (before ++ u ∷ []) ++ (updates ++ later) ≡ before ++ (u ∷ updates ++ later) =
      append_assoc before (u ∷ []) (updates ++ later) in
    subst (λ all. pending (offset_after (u.update_id + 1) updates) all ≡ later) same
      (pending-offset_after (before ++ u ∷ []) updates later (u.update_id + 1)
        (subst Ascending (sym same) a)
        (ap (pending (u.update_id + 1)) same ∙ pending-behind before u (updates ++ later) a))

-- What is handled is what the offset does not leave.
abbrev pub Delivers : List Update → Poll → Type 0
Delivers all p = p.handled ++ pending p.offset all ≡ all

pub after_poll-Delivers :
    {E : Type 0} (all : List Update) (p : Poll) (r : Result E (List Update))
    → Ascending all
    → ((updates : List Update)
        → r ≡ ok updates
        → (later : List Update) × (pending p.offset all ≡ updates ++ later))
    → Delivers all p
    → Delivers all (after_poll p r)
unfolding after_poll
after_poll-Delivers all p (err e) a h d = d
after_poll-Delivers all p (ok updates) a h d =
    let (later, e) = h updates refl in
    let whole : all ≡ p.handled ++ (updates ++ later) = sym d ∙ ap (λ us. p.handled ++ us) e in
    ap (λ us. (p.handled ++ updates) ++ us)
      (ap (pending (offset_after p.offset updates)) whole
        ∙ pending-offset_after p.handled updates later p.offset (subst Ascending whole a)
            (ap (pending p.offset) (sym whole) ∙ e))
    ∙ append_assoc p.handled updates later
    ∙ sym whole

poll_all-Delivers :
    (all : List Update) (p : Poll) (servers : List Server)
    → Ascending all
    → All (Answers all) servers
    → Delivers all p
    → Delivers all (poll_all p servers)
unfolding poll_all
poll_all-Delivers all p [] a h d = d
poll_all-Delivers all p (server ∷ servers) a h d =
    poll_all-Delivers all (after_poll p (server p.offset)) servers a h.1
      (after_poll-Delivers all p (server p.offset) a (h.0 p.offset) d)

pub pending_zero : (all : List Update) → pending 0 all ≡ all
pending_zero [] = refl
pending_zero (u ∷ all) = ground (arith, pending_zero all)

-- Every update reaches the handler once: whatever polls fail and however many updates the others
-- give, what Run has handled and what its offset leaves are together all the updates, in order, if
-- the server answers as documented.
pub run-delivers :
    (all : List Update) (servers : List Server)
    → Ascending all
    → All (Answers all) servers
    → (run servers).handled ++ pending (run servers).offset all ≡ all
unfolding run
run-delivers all servers a h = poll_all-Delivers all first_poll servers a h (pending_zero all)
