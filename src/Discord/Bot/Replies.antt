-- ===== src/Discord/Bot/Replies.antt =====
-- gateway/discord: which channels the bot answers.
use aethercore.Prelude.{
  ◌≡◌, refl, sym, ap, ◌∙◌, arith, inl, inr, ℕ, ◌+◌, Bool, true, false, ◌&&◌, ◌||◌, none, some, List,
  [], ◌∷◌, ◌++◌, append-nil, map, map-last, lookup, insert, Bool-cases, nat_eq, ◌==◌, eq_list,
  eq_nat, list_eq_iff, if◌then◌else◌,
}
use aethercore.Prelude.Turns.{number, gather, turns-sum}
use aethercore.Prelude.Result.{Result, ok, err}
use aethercore.Prelude.Text.{Text, codes, cut, trim_space}
use aethercore.Sdk.Registry.{ModuleRegistry}
use aethercore.Discord.Session.{Message, Decoders, Script}
use aethercore.Discord.Router.{
  Router, Call, register, parse_command, call_fallback, handle_text, handle,
}
use aethercore.Discord.Client.{Client, ClientError, Wire, new_client, get_gateway_url}
use aethercore.Discord.Bot.{
  Handler, help, run, modules, Sent, bot_router, reply, run_handler, run_call, serve, serve_all,
  session_messages, after_url, start,
}

abbrev pub command_names : List Text
command_names = codes "start" ∷ codes "help" ∷ codes "run" ∷ codes "modules" ∷ []

abbrev pub is_among : Text → List Text → Bool
is_among x [] = false
is_among x (y ∷ ys) = y == x || is_among x ys

-- The four names are in lower case.
abbrev pub KeepsNames : (Text → Text) → Type 0
KeepsNames to_lower =
    (to_lower (codes "start") ≡ codes "start")
    × (to_lower (codes "help") ≡ codes "help")
    × (to_lower (codes "run") ≡ codes "run")
    × (to_lower (codes "modules") ≡ codes "modules")

module _ (to_lower : Text → Text) where
  -- A text asks for a command: an exclamation mark, and then a word that is one of the four names,
  -- in any case.
  abbrev pub asks : Text → Bool
  asks [] = false
  asks (c ∷ text) = nat_eq c b'!' && is_among (to_lower (cut b' ' text).0) command_names

  abbrev pub asking_channel : Message → List Text
  asking_channel msg = if asks (trim_space msg.content) then msg.channel_id ∷ [] else []

  -- The channels of the messages that ask for a command.
  abbrev pub asking_channels : List Message → List Text
  asking_channels ms = gather asking_channel ms

  abbrev call_channel : Call Handler → List Text
  call_channel none = []
  call_channel (some (h, (channel_id, args))) = channel_id ∷ []

  abbrev plain_router : Router Handler
  plain_router = record {
    prefix = codes "!";
    commands =
        (codes "start", help)
        ∷ (codes "help", help)
        ∷ (codes "run", run)
        ∷ (codes "modules", modules)
        ∷ [];
    fallback = none;
  }

  bot_router_lem : KeepsNames to_lower → bot_router to_lower ≡ plain_router
  unfolding bot_router register insert
  bot_router_lem keeps = rw (keeps.0, keeps.1, keeps.2, keeps.3) refl

  picks :
      (is_start is_help is_run is_modules : Bool) (channel_id : Text) (args : Text)
      → call_channel
          (elim (if is_start
            then some help
            else if is_help
            then some help
            else if is_run
            then some run
            else if is_modules
            then some modules
            else none) [ none ↦ none | some handler ↦ some (handler, (channel_id, args)) ])
        ≡ (if is_start || (is_help || (is_run || (is_modules || false)))
            then channel_id ∷ []
            else [])
  picks true _ _ _ channel_id args = refl
  picks false true _ _ channel_id args = refl
  picks false false true _ channel_id args = refl
  picks false false false true channel_id args = refl
  picks false false false false channel_id args = refl

  -- The router finds a handler for the four names.
  word_channel :
      (channel_id : Text) (word args text : Text)
      → call_channel (
          if word == []
          then call_fallback plain_router channel_id text
          else elim (lookup word plain_router.commands) [
            | none ↦ call_fallback plain_router channel_id text
            | some handler ↦ some (handler, (channel_id, args))
          ])
        ≡ (if is_among word command_names then channel_id ∷ [] else [])
  unfolding call_fallback lookup
  word_channel channel_id [] args text = refl
  word_channel channel_id (c ∷ word) args text =
      picks (codes "start" == (c ∷ word)) (codes "help" == (c ∷ word)) (codes "run" == (c ∷ word))
        (codes "modules" == (c ∷ word)) channel_id args

  handle_text-channel :
      (channel_id : Text) (text : Text)
      → call_channel (handle_text to_lower plain_router channel_id text)
        ≡ (if asks text then channel_id ∷ [] else [])
  unfolding handle_text parse_command call_fallback
  handle_text-channel channel_id [] = refl
  handle_text-channel channel_id (c ∷ text) = elim (Bool-cases (nat_eq c b'!')) [
    | inl slash ↦ rw slash (
        word_channel channel_id (to_lower (cut b' ' text).0)
          (parse_command to_lower (codes "!") (c ∷ text)).1 (c ∷ text))
    | inr other ↦ rw other refl
  ]

  handle-channel :
      (m : Message) → call_channel (handle to_lower plain_router (some m)) ≡ asking_channel m
  unfolding handle
  handle-channel m = elim (Bool-cases (trim_space m.content == [])) [
    | inl bare ↦
        let idle : asks (trim_space m.content) ≡ false =
          ap asks ((list_eq_iff (trim_space m.content) []).0 bare) in
        rw (bare, idle, handle) refl
    | inr some_text ↦
        rw (some_text, handle) (handle_text-channel m.channel_id (trim_space m.content))
  ]

-- The channels of the replies so far.
abbrev pub channels : {World : Type 0} → Sent World → List Text
channels s = map (λ e. e.0) s.0

module _ {World : Type 0} (to_lower : Text → Text) (keeps : KeepsNames to_lower) (wire : Wire World)
    (client : Client) (registry : ModuleRegistry World) where
  run_call-channels :
      (call : Call Handler) (now : ℕ) (s : Sent World)
      → channels (run_call to_lower wire client registry call now s)
        ≡ channels s ++ call_channel to_lower call
  unfolding run_handler reply
  run_call-channels none now s = sym (append-nil (channels s))
  run_call-channels (some (help, (channel_id, args))) now s =
      map-last (λ e. e.0) s.0 (channel_id, _)
  run_call-channels (some (modules, (channel_id, args))) now s =
      map-last (λ e. e.0) s.0 (channel_id, _)
  run_call-channels (some (run, (channel_id, args))) now s = map-last (λ e. e.0) s.0 (channel_id, _)

  serve-channels :
      (m : Message) (now : ℕ) (s : Sent World)
      → channels (serve to_lower wire client registry m now s)
        ≡ channels s ++ asking_channel to_lower m
  unfolding serve
  serve-channels m now s =
      run_call-channels (handle to_lower (bot_router to_lower) (some m)) now s
      ∙ ap (λ cs. channels s ++ cs)
          (ap (λ r. call_channel to_lower (handle to_lower r (some m)))
              (bot_router_lem to_lower keeps)
            ∙ handle-channel to_lower m)

  -- The replies, and those that the goroutines which wait will give, are those to the messages.
  pub serve_all-channels :
      (test : Text → Bool) (order : List (ℕ × ℕ)) (msgs : List Message) (w : World)
      → let out = serve_all to_lower wire client registry order msgs ([], w) in
        number test (channels out.1) + number test (asking_channels to_lower out.0)
        ≡ number test (asking_channels to_lower msgs)
  unfolding serve_all
  serve_all-channels test order msgs w =
      turns-sum (asking_channel to_lower) test (serve to_lower wire client registry) channels
        serve-channels order (msgs, ([], w))
      ∙ omega arith

  after_url-channels :
      (test : Text → Bool) (msgs : List Message) (order : List (ℕ × ℕ))
      (url : Result ClientError Text × World)
      → let out = (after_url to_lower wire client registry msgs order url).1 in
        number test (channels out.1.1) + number test (asking_channels to_lower out.1.0)
        ≡ number test (asking_channels to_lower out.0)
  after_url-channels test msgs order (err e, w) = omega arith
  after_url-channels test msgs order (ok url, w) = serve_all-channels test order msgs w

-- The bot answers each command once and nothing else: to each channel, the calls of SendMessage and
-- the commands whose goroutines wait are together as many as the commands among the messages that
-- its sessions hand on; in whatever order the goroutines run, whatever fails, and also where Start
-- reports an error. The four names are in lower case.
pub start-Replies :
    {World : Type 0} (to_lower : Text → Text) (wire : Wire World) (registry : ModuleRegistry World)
    (decoders : Decoders) (token : Text) (scripts : List Script) (order : List (ℕ × ℕ)) (w : World)
    → KeepsNames to_lower
    → (test : Text → Bool)
    → let out = (start to_lower wire registry decoders token scripts order w).1 in
      number test (channels out.1.1) + number test (asking_channels to_lower out.1.0)
      ≡ number test (asking_channels to_lower out.0)
unfolding start
start-Replies to_lower wire registry decoders token scripts order w keeps test =
    elim (Bool-cases (token == [])) [
      | inl bare ↦ rw (bare, start) (omega arith)
      | inr named ↦
          rw (named, start)
            (after_url-channels to_lower keeps wire (new_client token) registry test
              (session_messages decoders scripts) order (get_gateway_url wire (new_client token) w))
    ]
