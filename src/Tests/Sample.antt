-- ===== src/Tests/Sample.antt =====
-- A small database: two users with wallets, the platform's wallet, a thread and a moment.
use wenyouzhan.Common.{ℕ, ◌+◌, true, false, Option, none, some, [], ◌∷◌}
use wenyouzhan.Exception.{Result, ok, err}
use wenyouzhan.Store.{Store, empty_store}
use wenyouzhan.Store.Keys.{private_thread, owner, participant}
use wenyouzhan.Store.Rows.{User, Wallet, Thread}

abbrev pub user : ℕ → ℕ → ℕ → User
user id experience level = record {
  id = id;
  username = id + 500;
  email = id + 600;
  password = id + 700;
  experience = experience;
  level = level;
  failed_login_attempts = 0;
  locked_until = none;
  deleted_at = none;
}

abbrev pub wallet : ℕ → Option ℕ → ℕ → Wallet
wallet id user_id balance = record {
  id = id;
  user_id = user_id;
  balance = balance;
  received_tip_total = 0;
  received_tip_count = 0;
}

abbrev pub thread : ℕ → ℕ → Thread
thread id owner_id = record {
  id = id;
  owner_id = owner_id;
  title = none;
  published = true;
  visibility = private_thread;
  deleted_at = none;
  like_count = 0;
  tip_total = 0;
}

abbrev pub db : Store
db = record empty_store {
  users = user 10 49 1 ∷ user 11 0 1 ∷ user 12 0 1 ∷ [];
  wallets = wallet 1 none 0 ∷ wallet 20 (some 10) 0 ∷ wallet 21 (some 11) 0 ∷ [];
  threads = thread 30 11 ∷ [];
  members =
      record { id = 40; thread_id = 30; user_id = 11; role = owner; player_marked = false }
      ∷ record { id = 41; thread_id = 30; user_id = 10; role = participant; player_marked = true }
      ∷ [];
  moments = record { id = 50; author_id = 11; title = 3; deleted_at = none; tip_total = 0 } ∷ [];
}

-- The value of a call that is known to succeed.
abbrev pub value_or : {A : Type 0} → A → Result A → A
value_or d (ok a) = a
value_or d (err _) = d
