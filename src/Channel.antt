-- ===== src/Channel.antt =====
-- SynchronizedChannel.h and SynchronizedChannel.cpp: one channel's messages in memory. Each method
-- holds the mutex throughout, so it is one step; waiting for messages is `Channel.Listeners`.
pub mod Listeners
pub mod Wakeups
use wrongthink.Base.{ℕ, String, Bool, List, [], ◌∷◌, ◌++◌, str_eq}
use wrongthink.Proto.{WrongthinkChannel, WrongthinkMessage, no_channel, no_message}
use text.Mathlib.Text.{is_lt}
use Prim.Native.String.{compare}

pub record SynchronizedChannel : Type 0 where
  pub wt_channel : WrongthinkChannel
  pub last_message : WrongthinkMessage
  pub msg_vector : List WrongthinkMessage

-- SynchronizedChannel(const WrongthinkChannel&)
abbrev pub of_channel : WrongthinkChannel → SynchronizedChannel
of_channel c = record { wt_channel = c; last_message = no_message; msg_vector = [] }

-- SynchronizedChannel()
abbrev pub default_channel : SynchronizedChannel
default_channel = of_channel no_channel

-- SynchronizedChannel(int, const std::string&)
abbrev pub of_name : ℕ → String → SynchronizedChannel
of_name id name = of_channel (record no_channel { channelid = id; name = name })

unfoldable pub append_message : WrongthinkMessage → SynchronizedChannel → SynchronizedChannel
append_message msg c = record c { msg_vector = c.msg_vector ++ msg ∷ []; last_message = msg }

-- Does nothing in the source.
unfoldable pub send_message : WrongthinkMessage → SynchronizedChannel → SynchronizedChannel
send_message msg c = c

unfoldable pub last_message : SynchronizedChannel → WrongthinkMessage
last_message c = c.last_message

unfoldable pub get_messages : SynchronizedChannel → List WrongthinkMessage
get_messages c = c.msg_vector

-- operator== and operator< of both kinds compare names.
unfoldable pub equals : SynchronizedChannel → WrongthinkChannel → Bool
equals c d = str_eq d.name c.wt_channel.name

unfoldable pub precedes : SynchronizedChannel → WrongthinkChannel → Bool
precedes c d = is_lt (compare c.wt_channel.name d.name)
