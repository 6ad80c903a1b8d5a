-- ===== src/Telegram/Tests.antt =====
-- gateway/telegram: the poller at three updates, of which the second poll fails, and the bot at two.
use aethercore.Prelude.{
  ℕ, ◌+◌, Bool, true, Option, some, refl, ◌≡◌, sym, ◌∙◌, append-nil, arith, none, List, [], ◌∷◌,
  ◌++◌, lookup, insert,
}
use aethercore.Prelude.Result.{Result, ok, err}
use aethercore.Prelude.Text.{Text, codes, cut, trim_space, to_lower}
use aethercore.Prelude.Turns.{number, turn, take_out}
use aethercore.Prelude.Int.{ℤ, pos}
use aethercore.Sdk.Registry.{ModuleRegistry, new_module_registry}
use aethercore.Telegram.Client.{Wire, ClientError, new_client, get_updates}
use aethercore.Telegram.Router.{parse_command, handle_text, handle}
use aethercore.Telegram.Bot.{Event, polled, runs, start}
use aethercore.Telegram.Bot.Replies.{chats, asking_chats}
use aethercore.Telegram.Bot.Service.{Documented, start-serves}
use aethercore.Telegram.Poller.{Update, Server, run}
use aethercore.Telegram.Poller.Delivery.{Answers, pending, run-delivers}

abbrev three : List Update
three =
    record { update_id = 4; message = none }
    ∷ record { update_id = 7; message = none }
    ∷ record { update_id = 9; message = none }
    ∷ []

-- A server that answers all that the offset leaves, and one that fails.
abbrev all_at_once : Server
all_at_once offset = ok (pending offset three)

abbrev failing : Server
failing offset = err (codes "timeout")

same_ok : {xs ys : List Update} → ◌≡◌ {A = Result Text (List Update)} (ok xs) (ok ys) → xs ≡ ys
same_ok h = cc

all_at_once-Answers : Answers three all_at_once
all_at_once-Answers offset updates h = ([], same_ok h ∙ sym (append-nil updates))

run-delivers_example :
    (run (failing ∷ all_at_once ∷ [])).handled
      ++ pending (run (failing ∷ all_at_once ∷ [])).offset three
    ≡ three
run-delivers_example =
    run-delivers three (failing ∷ all_at_once ∷ [])
      ((omega arith, (omega arith, tt)), ((omega arith, tt), (tt, tt)))
      ((λ offset updates h. absurd (ground arith)), (all_at_once-Answers, tt))

abbrev two_sent : List Update
two_sent =
    record {
      update_id = 5;
      message = some (record { chat_id = pos 8; text = codes "/Run@bot go" });
    }
    ∷ record { update_id = 6; message = some (record { chat_id = pos 9; text = codes "hello" }) }
    ∷ []

abbrev body_of : Option Text → Text
body_of none = []
body_of (some body) = body

abbrev updates_from : Text → List Update
updates_from [] = []
updates_from (offset ∷ rest) = pending offset two_sent

-- A server that answers all that the offset leaves of two updates: a command for the bot, a chat.
abbrev busy : Wire ℕ
busy = record {
  envelope_of =
      λ body. ok (record { is_ok = true; result = body; error_code = pos 0; description = [] });
  user_of = λ body. ok (record { id = pos 1; username = codes "bot" });
  updates_of = λ body. ok (updates_from body);
  message_of = λ body. err (codes "no message");
  of_get_updates = λ req. ok (req.offset ∷ []);
  of_send_message = λ req. ok req.text;
  new_request = λ req. none;
  round_trip = λ req w. (ok (body_of req.body), w + 1);
}

abbrev no_modules : ModuleRegistry ℕ
no_modules = new_module_registry

-- A poll, and the command and the chat in the other order; a poll that finds nothing.
abbrev events : List Event
events = polled ∷ runs 1 5 ∷ polled ∷ runs 0 6 ∷ []

abbrev any_chat : ℤ → Bool
any_chat chat = true

same_sent :
    {xs ys : List Update} → ◌≡◌ {A = Result ClientError (List Update)} (ok xs) (ok ys) → xs ≡ ys
same_sent h = cc

busy-Documented : Documented busy (new_client (codes "token")) two_sent
unfolding get_updates
busy-Documented offset w updates h = ([], same_sent h ∙ sym (append-nil updates))

start-serves_example :
    let out = (start to_lower busy no_modules (codes "token") events 0).1 in
    number any_chat (chats out.1.1)
      + number any_chat (asking_chats to_lower out.1.0)
      + number any_chat (asking_chats to_lower (pending out.0.offset two_sent))
    ≡ number any_chat (asking_chats to_lower two_sent)
unfolding to_lower
start-serves_example =
    start-serves to_lower busy no_modules (codes "token") events 0 two_sent (refl, refl, refl, refl)
      ((omega arith, tt), (tt, tt)) busy-Documented any_chat

one_reply : chats (start to_lower busy no_modules (codes "token") events 0).1.1.1 ≡ pos 8 ∷ []
unfolding start get_updates handle handle_text parse_command trim_space to_lower cut lookup insert
    turn take_out
one_reply = refl
