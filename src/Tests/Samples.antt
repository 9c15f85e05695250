-- ===== src/Tests/Samples.antt =====
-- A small chat: two accounts, a community, a channel and a message.
use wrongthink.Base.{ℕ, true, false, List, [], ◌∷◌, refl}
use wrongthink.Base.Int.{pos}
use wrongthink.Proto.{WrongthinkMessage, no_message}
use wrongthink.Auth.{Metadata}
use wrongthink.Db.Tables.{User, Channel, Message, Table, Db}
use wrongthink.Db.Sql.Schema.{IsReady}
use wrongthink.Service.{Service}
use wrongthink.Service.Cache.{IsServing}

abbrev pub alice : User
alice = record { user_id = 1; uname = "alice"; token = "secret"; admin = true }

abbrev pub bob : User
bob = record { user_id = 2; uname = "bob"; token = "hunter2"; admin = false }

abbrev pub general : Channel
general = record { channel_id = 1; name = "general"; community = 1; admin = 1; allow_anon = false }

abbrev pub hello : Message
hello = record {
  msg_id = 1;
  user_id = 1;
  channel = 1;
  thread_id = 0;
  thread_child = false;
  edited = false;
  mtext = "hello";
  mdate = 1600000000;
}

abbrev pub table : {R : Type 0} → List R → ℕ → Table R
table rows n = record { exists = true; rows = rows; sequence = n }

abbrev pub chat_db : Db
chat_db = record {
  users = table (alice ∷ bob ∷ []) 3;
  banned_users = table [] 1;
  banned_ips = table [] 1;
  communities = table (record { community_id = 1; name = "main"; admin = 1; public = true } ∷ []) 2;
  channels = table (general ∷ []) 2;
  message = table (hello ∷ []) 2;
  control_message = table [] 1;
}

abbrev pub chat : Service
chat = record { db = chat_db; channel_map = [] }

pub chat-IsReady : IsReady chat_db
chat-IsReady = record {
  has_users = refl;
  has_banned_users = refl;
  has_banned_ips = refl;
  has_communities = refl;
  has_channels = refl;
  has_message = refl;
  has_control_message = refl;
}

pub chat-IsServing : IsServing chat
chat-IsServing = record { ready = chat-IsReady; coherent = tt }

abbrev pub hi : WrongthinkMessage
hi = record no_message { uname = "bob"; channelid = 1; userid = 2; text = "hi" }

-- A message to a channel that does not exist, and one of a user that does not.
abbrev pub nowhere : WrongthinkMessage
nowhere = record hi { channelid = 7 }

abbrev pub nobody : WrongthinkMessage
nobody = record hi { userid = 9 }

abbrev pub alice_login : Metadata
alice_login = ("auth-uname", "alice") ∷ ("auth-token", "secret") ∷ []

abbrev pub bob_login : Metadata
bob_login = ("auth-uname", "bob") ∷ ("auth-token", "hunter2") ∷ []

-- A chat in which bob is banned until 1700000000, and so is an address.
abbrev pub banned_db : Db
banned_db = record chat_db {
  banned_users = table (record { entry_id = 1; user_id = 2; expire = pos 1700000000 } ∷ []) 2;
  banned_ips =
      table (record { entry_id = 1; ip = "ipv4:10.0.0.1"; expire = pos 1700000000 } ∷ []) 2;
}

pub banned-IsReady : IsReady banned_db
banned-IsReady = record {
  has_users = refl;
  has_banned_users = refl;
  has_banned_ips = refl;
  has_communities = refl;
  has_channels = refl;
  has_message = refl;
  has_control_message = refl;
}
