-- ===== src/Proto.antt =====
-- The messages of protocol/proto/wrongthink.proto, by the fields that the server sets or reads: the
-- file and the classes generated from it are not in the repository. An `int32` is its 32-bit
-- pattern where it is only stored and compared, a signed integer where it is computed with.
use wrongthink.Base.{ℕ, String, Bool, false}
use wrongthink.Base.Int.{ℤ}

pub data StatusCode : Type 0 where
  ok invalid_argument unauthenticated internal : StatusCode

-- grpc::Status
pub record Status : Type 0 where
  pub code : StatusCode
  pub message : String

-- Status::OK
abbrev pub ok_status : Status
ok_status = record { code = StatusCode.ok; message = "" }

abbrev pub invalid_status : Status
invalid_status = record { code = StatusCode.invalid_argument; message = "" }

abbrev pub unauthenticated_status : String → Status
unauthenticated_status m = record { code = StatusCode.unauthenticated; message = m }

abbrev pub internal_status : Status
internal_status = record { code = StatusCode.internal; message = "" }

pub record WrongthinkUser : Type 0 where
  pub userid : ℕ
  pub uname : String
  pub token : String
  pub admin : Bool

pub record WrongthinkCommunity : Type 0 where
  pub communityid : ℕ
  pub name : String
  pub unameadmin : String

pub record WrongthinkChannel : Type 0 where
  pub channelid : ℕ
  pub name : String
  pub anonymous : Bool
  pub communityid : ℕ
  pub unameadmin : String

pub record WrongthinkMessage : Type 0 where
  pub uname : String
  pub channelname : String
  pub channelid : ℕ
  pub userid : ℕ
  pub threadid : ℕ
  pub threadchild : Bool
  pub edited : Bool
  pub text : String
  pub date : ℕ
  pub messageid : ℕ

-- Messages as their constructors leave them.
abbrev pub no_user : WrongthinkUser
no_user = record { userid = 0; uname = ""; token = ""; admin = false }

abbrev pub no_community : WrongthinkCommunity
no_community = record { communityid = 0; name = ""; unameadmin = "" }

abbrev pub no_channel : WrongthinkChannel
no_channel = record {
  channelid = 0;
  name = "";
  anonymous = false;
  communityid = 0;
  unameadmin = "";
}

abbrev pub no_message : WrongthinkMessage
no_message = record {
  uname = "";
  channelname = "";
  channelid = 0;
  userid = 0;
  threadid = 0;
  threadchild = false;
  edited = false;
  text = "";
  date = 0;
  messageid = 0;
}

pub record GenericResponse : Type 0 where
  pub message : String

pub record BanUserRequest : Type 0 where
  pub uname : String
  pub days : ℤ

pub record CreateUserRequest : Type 0 where
  pub uname : String
  pub password : String
  pub admin : Bool

pub record CreateWrongthinkCommunityRequest : Type 0 where
  pub name : String
  pub adminid : ℕ
  pub public : Bool

pub record CreateWrongThinkChannelRequest : Type 0 where
  pub name : String
  pub communityid : ℕ
  pub adminid : ℕ
  pub anonymous : Bool

pub record GetWrongthinkMessagesRequest : Type 0 where
  pub channelid : ℕ
  pub limit : ℕ
  pub afterid : ℕ
  pub afterdate : ℕ
