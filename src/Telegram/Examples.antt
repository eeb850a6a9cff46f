-- ===== src/Telegram/Examples.antt =====
-- Concrete links and bindings, and each theorem at one of them.
use recall_ai.Base.{
  ℕ, ◌≤◌, String, Bool, true, Option, none, some, List, [], ◌∷◌, ◌≡◌, ◌≢◌, ◌↔◌, refl, arith, ◌==◌,
  if◌then◌else◌, is_some, count_where, find_first, save, Distinct, Fresh, text_append,
}
use recall_ai.Telegram.Row.{
  TelegramAccount, TelegramLinkToken, Db, TelegramIdentity, invalid_token, Bot, Draw,
}
use recall_ai.Telegram.Repository.{get_by_hash}
use recall_ai.Telegram.Linking.{create_link, consume, resolve, outcome}
use recall_ai.Telegram.Tokens.{consume_once}
use recall_ai.Telegram.Binding.{IsBound}
use recall_ai.Telegram.Redeem.{IsLive, consume_keeps_others}
use recall_ai.Telegram.Reach.{consumes, creates, Reaches, empty, step, Reaches-IsBound}

abbrev bot : Bot
bot = record {
  link_token_ttl_minutes = 10;
  bot_username = "recall_bot";
  hash_link_token = text_append "#";
}

abbrev draw : ℕ → ℕ → String → Draw
draw now n raw = record { now = now; created = now; row_id = n; raw = raw }

abbrev ada : TelegramIdentity
ada = record {
  telegram_user_id = "100";
  chat_id = "100";
  username = none;
  first_name = some "Ada";
  last_name = none;
  language_code = none;
}

abbrev blank : Db
blank = record { accounts = []; tokens = [] }

-- User 1 has a link, and then user 2 has one.
abbrev offered : Db
offered = (create_link bot (draw 50 1 "one") 1 blank).1

abbrev redeemed : Db
redeemed = (consume bot (draw 60 7 "") "one" ada offered).1

abbrev second : Db
second = (create_link bot (draw 70 2 "two") 2 redeemed).1

abbrev links : TelegramLinkToken
links = record {
  id = 1;
  user_id = 1;
  token_hash = "#one";
  expires_at = 600_000_050;
  used_at = none;
  created_at = 50;
}

abbrev second_link : TelegramLinkToken
second_link = record {
  id = 2;
  user_id = 2;
  token_hash = "#two";
  expires_at = 600_000_070;
  used_at = none;
  created_at = 70;
}

abbrev account : TelegramAccount
account = record {
  id = 7;
  user_id = 1;
  telegram_user_id = "100";
  telegram_chat_id = "100";
  username = none;
  first_name = some "Ada";
  last_name = none;
  language_code = none;
  linked_at = 60;
  created_at = 60;
  updated_at = 60;
}

consume_once_example :
    consume bot (draw 61 8 "") "one" ada redeemed ≡ (outcome invalid_token, redeemed)
unfolding create_link save recall_ai.Base.update_where
consume_once_example =
    consume_once bot (draw 60 7 "") "one" ada offered (draw 61 8 "") ada (tt, tt) (omega arith)

Reaches-offered : Reaches offered
Reaches-offered = step empty (creates bot (draw 50 1 "one") 1 blank)

Reaches-redeemed : Reaches redeemed
unfolding create_link
Reaches-redeemed = step Reaches-offered (consumes bot (draw 60 7 "") "one" ada offered tt)

Reaches-IsBound_example : IsBound redeemed.accounts
Reaches-IsBound_example = Reaches-IsBound Reaches-redeemed

IsLive-links : IsLive bot 60 "one" offered links
unfolding get_by_hash find_first create_link save recall_ai.Base.update_where text_append
IsLive-links = record { presented = refl; unspent = refl }

IsLive-second : IsLive bot 80 "two" second second_link
unfolding get_by_hash find_first create_link save recall_ai.Base.update_where consume text_append
IsLive-second = record { presented = refl; unspent = refl }

consume_keeps_others_example :
    resolve "100" (consume bot (draw 80 8 "") "two" ada second).1 ≡ some account
unfolding create_link consume find_first save recall_ai.Base.update_where text_append resolve
consume_keeps_others_example =
    consume_keeps_others bot (draw 80 8 "") "two" ada second second_link IsLive-second
      (Reaches-IsBound (step Reaches-redeemed (creates bot (draw 70 2 "two") 2 redeemed)))
      (ground arith, tt) "100" account refl (ground arith)
