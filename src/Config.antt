-- ===== src/Config.antt =====
-- The configuration of a session: the files of pyfix/examples/config, as data, and `makeConfig` of
-- pyfix/FIXConfig.py, which reads such data.
pub mod Made
mod Tests
use pyfix.Base.{
  ℕ, Bool, true, false, List, [], ◌∷◌, ◌++◌, Option, none, some, String, Text, codes, text_eq,
  if◌then◌else◌,
}

mutual
  pub data Json : Type 0 where
    num : ℕ → Json
    str : Text → Json
    dict : Fields → Json
    array : Items → Json

  pub data Fields : Type 0 where
    end : Fields
    field : Text → Json → Fields → Fields

  pub data Items : Type 0 where
    stop : Items
    item : Json → Items → Items

infixr 60 ◌⇒◌
abbrev ◌⇒◌ : String × Json → Fields → Fields
p ⇒ fs = field (codes p.0) p.1 fs

abbrev passwords : Json
passwords = dict (("admin", str (codes "aaa")) ⇒ end)

abbrev pub sender_config : Fields
sender_config =
    (
      "defaults",
      dict (
          ("ConnectionType", str (codes "initiator"))
          ⇒ ("HeartbeatInterval", num 30)
          ⇒ ("PersistRoot", str (codes "../persist/send"))
          ⇒ ("Host", str (codes "localhost"))
          ⇒ end),
    )
    ⇒ (
      "sessions",
      array (
          item
            (dict (
              ("BeginString", str (codes "FIX.4.2"))
              ⇒ ("SenderCompID", str (codes "CLIENT"))
              ⇒ ("TargetCompID", str (codes "BROKER"))
              ⇒ ("Port", num 1666)
              ⇒ end))
            stop),
    )
    ⇒ ("manhole", dict (("listenPort", num 2223) ⇒ ("passwords", passwords) ⇒ end))
    ⇒ ("ftpServer", dict (("passwords", passwords) ⇒ end))
    ⇒ ("webServer", dict (("listenPort", num 8001) ⇒ end))
    ⇒ ("nevow", dict (("listenPort", num 8002) ⇒ end))
    ⇒ end

abbrev pub receiver_config : Fields
receiver_config =
    (
      "defaults",
      dict (
          ("ConnectionType", str (codes "acceptpr"))
          ⇒ ("FileStorePath", str (codes "store"))
          ⇒ ("HeartbeatInterval", num 30)
          ⇒ ("PersistRoot", str (codes "../persist/receive"))
          ⇒ ("BeginString", str (codes "FIX.4.2"))
          ⇒ end),
    )
    ⇒ (
      "sessions",
      dict (
          ("SenderCompID", str (codes "BROKER"))
          ⇒ ("Port", num 1666)
          ⇒ ("TargetCompID", str (codes "CLIENT"))
          ⇒ end),
    )
    ⇒ ("manhole", dict (("listenPort", num 4223) ⇒ ("passwords", passwords) ⇒ end))
    ⇒ ("webServer", dict (("listenPort", num 8101) ⇒ end))
    ⇒ ("nevow", dict (("listenPort", num 8102) ⇒ end))
    ⇒ end

-- The exceptions of `makeConfig`.
pub data Failure : Type 0 where
  key_error : Text → Failure
  assertion : Text → Failure
  attribute_error : Failure
  type_error : Failure
  bad_update : Failure

pub data Result (A : Type 0) : Type 0 where
  ok : A → Result A
  raised : Failure → Result A

abbrev pub bind : {A B : Type 0} → Result A → (A → Result B) → Result B
bind (ok a) f = f a
bind (raised e) f = raised e

abbrev pub find : Text → Fields → Option Json
find k end = none
find k (field x v fs) = if text_eq x k then some v else find k fs

-- `d[k]`
unfoldable pub get : Text → Fields → Result Json
get k d = elim (find k d) [ none ↦ raised (key_error k) | some v ↦ ok v ]

unfoldable pub set_field : Text → Json → Fields → Fields
set_field k v end = field k v end
set_field k v (field x w fs) =
    let rest = set_field k v fs in if text_eq x k then field x v fs else field x w rest

-- `sess.update(chunk)`
unfoldable pub update : Fields → Fields → Fields
update sess end = sess
update sess (field k v chunk) = update (set_field k v sess) chunk

pub record SessionConfig : Type 0 where
  pub connection_type : Json
  pub port : Json
  pub host : Option Json
  pub sender : Json
  pub target : Json
  pub persist_root : Json
  pub heartbeat_interval : Json

unfoldable pub clone : SessionConfig → SessionConfig
clone c = record {
  connection_type = c.connection_type;
  port = c.port;
  host = c.host;
  sender = c.sender;
  target = c.target;
  persist_root = c.persist_root;
  heartbeat_interval = c.heartbeat_interval;
}

abbrev pub arg_list : List Text
arg_list =
    codes "ConnectionType"
    ∷ codes "HeartbeatInterval"
    ∷ codes "SenderCompID"
    ∷ codes "TargetCompID"
    ∷ codes "Port"
    ∷ []

abbrev pub is_text : Json → String → Bool
is_text (str t) s = text_eq t (codes s)
is_text _ s = false

-- What a loop over a dictionary or a text goes through.
unfoldable pub keys : Fields → Items
keys end = stop
keys (field k v fs) = item (str k) (keys fs)

unfoldable pub letters : Text → Items
letters [] = stop
letters (c ∷ s) = item (str (c ∷ [])) (letters s)

-- `has_key` is the method of that name of a dictionary, which Python 3 does not have: a call of it
-- then raises.
module _ (has_key : Fields → Text → Result Bool) where
  unfoldable pub check_args : Fields → List Text → Result Unit
  check_args sess [] = ok tt
  check_args sess (x ∷ xs) =
      let rest = check_args sess xs in
      bind (has_key sess x) (λ b. if b then rest else raised (assertion x))

  unfoldable pub host_of : Fields → Json → Result (Option Json)
  host_of sess connection =
      if is_text connection "initiator"
      then bind (has_key sess (codes "Host")) (λ b.
        if b
        then bind (get (codes "Host") sess) (λ h. ok (some h))
        else raised (assertion (codes "Host")))
      else if is_text connection "acceptor"
      then ok none
      else raised (assertion (codes "ConnectionType"))

  -- One round of the loop, for the defaults and the chunk.
  unfoldable pub make_session : Fields → Fields → Result SessionConfig
  make_session defaults chunk =
      let sess = update defaults chunk in
      bind (check_args sess arg_list) (λ checked.
        bind (get (codes "ConnectionType") sess) (λ connection.
          bind (host_of sess connection) (λ host. bind (get (codes "Port") sess) (λ port.
            bind (get (codes "SenderCompID") sess) (λ sender.
              bind (get (codes "TargetCompID") sess) (λ target.
                bind (get (codes "PersistRoot") sess) (λ root.
                  bind (get (codes "HeartbeatInterval") sess) (λ interval. ok (record {
                    connection_type = connection;
                    port = port;
                    host = host;
                    sender = sender;
                    target = target;
                    persist_root = root;
                    heartbeat_interval = interval;
                  })))))))))

  -- The chunk as the argument of `update`. Of what is no dictionary it takes only an empty text or
  -- array and an array of pairs, which are left out here.
  unfoldable pub with_chunk : Fields → Json → Result SessionConfig
  with_chunk defaults (dict chunk) = make_session defaults chunk
  with_chunk defaults _ = raised bad_update

  -- Only a dictionary has both `copy` and `update`.
  unfoldable pub make_chunk : Fields → Json → Result SessionConfig
  make_chunk d chunk = bind (get (codes "default") d) (λ v. elim v [
    | dict defaults ↦ with_chunk defaults chunk
    | num n ↦ raised attribute_error
    | str t ↦ raised attribute_error
    | array xs ↦ raised attribute_error
  ])

  unfoldable pub make_all : Fields → Items → Result (List SessionConfig)
  make_all d stop = ok []
  make_all d (item chunk chunks) =
      let rest = make_all d chunks in bind (make_chunk d chunk) (λ s. bind rest (λ ss. ok (s ∷ ss)))

  unfoldable pub make_config : Fields → Result (List SessionConfig)
  make_config d = bind (get (codes "sessions") d) (λ v. elim v [
    | array chunks ↦ make_all d chunks
    | dict fs ↦ make_all d (keys fs)
    | str t ↦ make_all d (letters t)
    | num n ↦ raised type_error
  ])
