-- ===== src/Telegram/Bot/Replies.antt =====
-- gateway/telegram: which chats the bot answers.
use aethercore.Prelude.{
  ◌≡◌, refl, sym, ap, ◌∙◌, arith, inl, inr, ℕ, ◌+◌, Bool, true, false, ◌&&◌, ◌||◌, Option, none,
  some, List, [], ◌∷◌, ◌++◌, append-nil, map, map-last, lookup, insert, Bool-cases, nat_eq, ◌==◌,
  eq_list, eq_nat, list_eq_iff, if◌then◌else◌,
}
use aethercore.Prelude.Turns.{number, gather, number-append, gather-append, turn-sum}
use aethercore.Prelude.Int.{ℤ}
use aethercore.Prelude.Result.{Result, ok, err}
use aethercore.Prelude.Text.{Text, codes, cut, trim_space}
use aethercore.Sdk.Registry.{ModuleRegistry}
use aethercore.Telegram.Poller.{Message, Update, Poll, first_poll, after_poll}
use aethercore.Telegram.Router.{
  Router, Call, register, parse_command, call_fallback, handle_text, handle,
}
use aethercore.Telegram.Client.{Client, ClientError, User, Wire, new_client, get_me, get_updates}
use aethercore.Telegram.Bot.{
  Handler, help, run, modules, Sent, bot_router, reply, run_handler, run_call, serve, answered,
  poll_timeout, Event, polled, runs, Running, bot_step, bot_steps, after_get_me, start,
}

abbrev pub command_names : List Text
command_names = codes "start" ∷ codes "help" ∷ codes "run" ∷ codes "modules" ∷ []

abbrev pub is_among : Text → List Text → Bool
is_among x [] = false
is_among x (y ∷ ys) = y == x || is_among x ys

-- The four names are in lower case.
abbrev pub KeepsNames : (Text → Text) → Type 0
KeepsNames to_lower =
    (to_lower (codes "start") ≡ codes "start")
    × (to_lower (codes "help") ≡ codes "help")
    × (to_lower (codes "run") ≡ codes "run")
    × (to_lower (codes "modules") ≡ codes "modules")

module _ (to_lower : Text → Text) where
  -- A text asks for a command: a slash, and then a word that up to an @ is one of the four names,
  -- in any case.
  abbrev pub asks : Text → Bool
  asks [] = false
  asks (c ∷ text) =
      nat_eq c b'/' && is_among (to_lower (cut b'@' (cut b' ' text).0).0) command_names

  abbrev pub asking_chat : Option Message → List ℤ
  asking_chat none = []
  asking_chat (some msg) = if asks (trim_space msg.text) then msg.chat_id ∷ [] else []

  -- The chats of the updates that ask for a command.
  abbrev pub asking_chats : List Update → List ℤ
  asking_chats us = gather (λ u. asking_chat u.message) us

  abbrev call_chat : Call Handler → List ℤ
  call_chat none = []
  call_chat (some (h, (chat_id, args))) = chat_id ∷ []

  abbrev plain_router : Router Handler
  plain_router = record {
    commands =
        (codes "start", help)
        ∷ (codes "help", help)
        ∷ (codes "run", run)
        ∷ (codes "modules", modules)
        ∷ [];
    fallback = none;
  }

  bot_router_lem : KeepsNames to_lower → bot_router to_lower ≡ plain_router
  unfolding bot_router register insert
  bot_router_lem keeps = rw (keeps.0, keeps.1, keeps.2, keeps.3) refl

  picks :
      (is_start is_help is_run is_modules : Bool) (chat_id : ℤ) (args : Text)
      → call_chat
          (elim (if is_start
            then some help
            else if is_help
            then some help
            else if is_run
            then some run
            else if is_modules
            then some modules
            else none) [ none ↦ none | some handler ↦ some (handler, (chat_id, args)) ])
        ≡ (if is_start || (is_help || (is_run || (is_modules || false))) then chat_id ∷ [] else [])
  picks true _ _ _ chat_id args = refl
  picks false true _ _ chat_id args = refl
  picks false false true _ chat_id args = refl
  picks false false false true chat_id args = refl
  picks false false false false chat_id args = refl

  -- The router finds a handler for the four names.
  word_chat :
      (chat_id : ℤ) (word args text : Text)
      → call_chat (
          if word == []
          then call_fallback plain_router chat_id text
          else elim (lookup word plain_router.commands) [
            | none ↦ call_fallback plain_router chat_id text
            | some handler ↦ some (handler, (chat_id, args))
          ])
        ≡ (if is_among word command_names then chat_id ∷ [] else [])
  unfolding call_fallback lookup
  word_chat chat_id [] args text = refl
  word_chat chat_id (c ∷ word) args text =
      picks (codes "start" == (c ∷ word)) (codes "help" == (c ∷ word)) (codes "run" == (c ∷ word))
        (codes "modules" == (c ∷ word)) chat_id args

  handle_text-chat :
      (chat_id : ℤ) (text : Text)
      → call_chat (handle_text to_lower plain_router chat_id text)
        ≡ (if asks text then chat_id ∷ [] else [])
  unfolding handle_text parse_command call_fallback
  handle_text-chat chat_id [] = refl
  handle_text-chat chat_id (c ∷ text) = elim (Bool-cases (nat_eq c b'/')) [
    | inl slash ↦ rw slash (
        word_chat chat_id (to_lower (cut b'@' (cut b' ' text).0).0)
          (parse_command to_lower (c ∷ text)).1 (c ∷ text))
    | inr other ↦ rw other refl
  ]

  handle_message-chat :
      (u : Update) (m : Option Message)
      → u.message ≡ m
      → call_chat (handle to_lower plain_router u) ≡ asking_chat m
  unfolding handle trim_space
  handle_message-chat u none h = rw (h, handle) refl
  handle_message-chat u (some msg) h = elim (Bool-cases (msg.text == [])) [
    | inl bare ↦
        let idle : asks (trim_space msg.text) ≡ false =
          ap (λ t. asks (trim_space t)) ((list_eq_iff msg.text []).0 bare) in
        rw (h, bare, idle, handle) refl
    | inr some_text ↦ rw (h, some_text, handle) (handle_text-chat msg.chat_id (trim_space msg.text))
  ]

  handle-chat : (u : Update) → call_chat (handle to_lower plain_router u) ≡ asking_chat u.message
  handle-chat u = handle_message-chat u u.message refl

-- The chats of the replies so far.
abbrev pub chats : {World : Type 0} → Sent World → List ℤ
chats s = map (λ e. e.0) s.0

module _ {World : Type 0} (to_lower : Text → Text) (keeps : KeepsNames to_lower) (wire : Wire World)
    (client : Client) (registry : ModuleRegistry World) where
  run_call-chats :
      (call : Call Handler) (now : ℕ) (s : Sent World)
      → chats (run_call to_lower wire client registry call now s)
        ≡ chats s ++ call_chat to_lower call
  unfolding run_handler reply
  run_call-chats none now s = sym (append-nil (chats s))
  run_call-chats (some (help, (chat_id, args))) now s = map-last (λ e. e.0) s.0 (chat_id, _)
  run_call-chats (some (modules, (chat_id, args))) now s = map-last (λ e. e.0) s.0 (chat_id, _)
  run_call-chats (some (run, (chat_id, args))) now s = map-last (λ e. e.0) s.0 (chat_id, _)

  serve-chats :
      (u : Update) (now : ℕ) (s : Sent World)
      → chats (serve to_lower wire client registry u now s)
        ≡ chats s ++ asking_chat to_lower u.message
  unfolding serve
  serve-chats u now s =
      run_call-chats (handle to_lower (bot_router to_lower) u) now s
      ∙ ap (λ cs. chats s ++ cs)
          (ap (λ r. call_chat to_lower (handle to_lower r u)) (bot_router_lem to_lower keeps)
            ∙ handle-chat to_lower u)

  -- The replies, and those that the goroutines which wait will give, are those to the updates that
  -- were handed on.
  abbrev Answered : (ℤ → Bool) → Running World → Type 0
  Answered test (p, (waiting, s)) =
      number test (chats s) + number test (asking_chats to_lower waiting)
      ≡ number test (asking_chats to_lower p.handled)

  poll-Answered :
      (test : ℤ → Bool) (p : Poll) (answer : Result ClientError (List Update))
      (waiting : List Update) (s : Sent World)
      → Answered test (p, (waiting, s))
      → Answered test
          (after_poll p answer, (waiting ++ answered to_lower wire client registry answer, s))
  unfolding after_poll
  poll-Answered test p (err e) waiting s h =
      ap (λ us. number test (chats s) + number test (asking_chats to_lower us)) (append-nil waiting)
      ∙ h
  poll-Answered test p (ok updates) waiting s h =
      let parts = λ (us : List Update).
        ap (number test) (gather-append (λ u. asking_chat to_lower u.message) us updates)
        ∙ number-append test (asking_chats to_lower us) (asking_chats to_lower updates) in
      omega (arith, h, parts waiting, parts p.handled)

  bot_step-Answered :
      (test : ℤ → Bool) (e : Event) (s : Running World)
      → Answered test s
      → Answered test (bot_step to_lower wire client registry e s)
  unfolding bot_step
  bot_step-Answered test polled (p, (waiting, (sent, w))) h =
      let (answer, w') = get_updates wire client p.offset poll_timeout w in
      poll-Answered test p answer waiting (sent, w') h
  bot_step-Answered test (runs i now) (p, (waiting, s)) h =
      turn-sum (λ u. asking_chat to_lower u.message) test (serve to_lower wire client registry)
        chats serve-chats i now waiting s
      ∙ h

  bot_steps-Answered :
      (test : ℤ → Bool) (es : List Event) (s : Running World)
      → Answered test s
      → Answered test (bot_steps to_lower wire client registry es s)
  unfolding bot_steps
  bot_steps-Answered test [] s h = h
  bot_steps-Answered test (e ∷ es) s h = bot_steps-Answered test es _ (bot_step-Answered test e s h)

  after_get_me-Answered :
      (test : ℤ → Bool) (es : List Event) (me : Result ClientError User × World)
      → Answered test (after_get_me to_lower wire client registry es me).1
  after_get_me-Answered test es (err e, w) = omega arith
  after_get_me-Answered test es (ok me, w) =
      bot_steps-Answered test es (first_poll, ([], ([], w))) (omega arith)

-- The bot answers each command once and nothing else: to each chat, the calls of SendMessage and
-- the commands whose goroutines wait are together as many as the commands among the updates that
-- were handed on; in whatever order the goroutines run, whatever fails, and also where Start
-- reports an error. The four names are in lower case.
pub start-Answered :
    {World : Type 0} (to_lower : Text → Text) (wire : Wire World) (registry : ModuleRegistry World)
    (token : Text) (es : List Event) (w : World)
    → KeepsNames to_lower
    → (test : ℤ → Bool)
    → let out = (start to_lower wire registry token es w).1 in
      number test (chats out.1.1) + number test (asking_chats to_lower out.1.0)
      ≡ number test (asking_chats to_lower out.0.handled)
unfolding start
start-Answered to_lower wire registry token es w keeps test = elim (Bool-cases (token == [])) [
  | inl bare ↦ rw (bare, start) (omega arith)
  | inr named ↦
      rw (named, start)
        (after_get_me-Answered to_lower keeps wire (new_client token) registry test es
          (get_me wire (new_client token) w))
]
