-- ===== src/Daemon/Join/Tests.antt =====
-- A node that joins by a token, and the theorem at a concrete input.
use kin.Base.{
  ◌≡◌, refl, ap, Bool, true, false, Option, none, some, List, [], ◌∷◌, ◌++◌, replicate, Bytes, eqb,
  ok, err,
}
use kin.Base.BigEndian.{be_value}
use kin.Base.Ints.{pos, from_uint64}
use kin.Base.Times.{from_unix}
use kin.Bolt.{Json}
use kin.Bolt.Memory.{memory}
use kin.Invite.{
  prefix, create, decode, unmarshal, read_endpoints, read_tail, validate, check_signature,
  use_nonce,
}
use kin.Invite.Samples.{toy}
use kin.Peerstore.{collect, list_peers, has_nonce, save_nonce, save_nonce_tx}
use kin.Peerstore.Samples.{key_json}
use kin.Catalog.{Entry, OwnerHint}
use kin.Connmgr.{split_from, split_endpoints, try_from, try_each, dial}
use kin.Connmgr.Samples.{network}
use kin.Daemon.{
  Host, Method, status, peers, join, peers_reply, internal, invalid_token, connect_failed,
  join_reply, hex_node_id, short_id, is_routable_listen_addr, invite_endpoints, handle_invite,
}
use kin.Daemon.Join.{
  Call, State, joined, dial_token, validated, decoded, join_param, handle_join, handle,
}
use kin.Daemon.Join.Once.{reached, handle_join_once}
use kin.Daemon.Join.Kept.{handle_all}
use kin.Daemon.Join.Direct.{Agree, join_direct-handle_join}
use kin.Cli.{join_direct}

abbrev host : Host toy
host = record {
  priv_key = tt;
  node_id = 2 ∷ [];
  listen_addr = b'h' ∷ [];
  shared_dir = b'd' ∷ [];
  relay_addr = b'r' ∷ [];
  sha256 = λ bs. bs;
  string_param = some;
  format_time = λ t. [];
  split_host = some;
  parse_ip = some;
  is_unspecified = λ ip. eqb ip [];
}

never : {A : Type 0} (a : A) (raw : Bytes) → Path (Option Bytes) none (some raw) → none ≡ some a
never a raw h = cc

-- Nothing is written for these in the runs.
abbrev no_entries : Json Entry
no_entries = record {
  marshal = λ e. none;
  unmarshal = λ raw. none;
  repair = λ e. e;
  unmarshal-marshal = never;
}

abbrev no_hints : Json (List OwnerHint)
no_hints = record {
  marshal = λ hs. none;
  unmarshal = λ raw. none;
  repair = λ hs. hs;
  unmarshal-marshal = never;
}

-- A token that names the key of 32 ones, and the endpoint a.
abbrev raw : Bytes
raw =
    prefix
    ++ (((replicate 32 1 ++ (0 ∷ 1 ∷ []))
          ++ (0 ∷ 1 ∷ b'a' ∷ [])
          ++ replicate 16 7
          ++ (0 ∷ 0 ∷ 0 ∷ 0 ∷ 0 ∷ 0 ∷ 0 ∷ 5 ∷ []))
        ++ replicate 64 5)

abbrev calling : Method → Call
calling m = record {
  request = record { id = 3; method = m; params = raw };
  random = none;
  now = pos 4000000000;
  later = pos 4000000001;
}

abbrev start :
    (works : Bytes → Bool) → State toy host memory key_json no_entries no_hints (network works)
start works = record {
  store = record { peers = memory.empty; nonces = memory.empty };
  files = record { entries = memory.empty; availability = memory.empty; self_id = 2 ∷ [] };
  world = [];
  served = [];
}

-- The endpoint cannot be reached.
fails :
    (handle_join toy host memory key_json no_entries no_hints
      (network (λ addr. false))
      (calling join)
      (start (λ addr. false))).0.result
    ≡ err connect_failed
unfolding handle_join join_param decoded validated dial_token joined decode unmarshal read_endpoints
    read_tail validate check_signature use_nonce has_nonce save_nonce save_nonce_tx memory eqb
    be_value from_unix from_uint64 dial split_endpoints split_from try_each try_from
fails = refl

handle_join_once_example :
    (handle_join toy host memory key_json no_entries no_hints
      (network (λ addr. false))
      (calling join)
      (handle_all toy host memory key_json no_entries no_hints
        (network (λ addr. false))
        (calling status ∷ calling join ∷ [])
        (handle_join toy host memory key_json no_entries no_hints
          (network (λ addr. false))
          (calling join)
          (start (λ addr. false))).1)).0.result
    ≡ err invalid_token
handle_join_once_example =
    handle_join_once toy host memory key_json no_entries no_hints (network (λ addr. false))
      (calling join) (calling join) (calling status ∷ calling join ∷ []) (start (λ addr. false))
      (ap reached fails) refl

-- The endpoint can be reached: the answer names the peer, and the connection is served.
succeeds :
    (handle_join toy host memory key_json no_entries no_hints
      (network (λ addr. true))
      (calling join)
      (start (λ addr. true))).0
    ≡ record { id = 3; result = ok (join_reply (b'0' ∷ b'9' ∷ [])) }
unfolding handle_join join_param decoded validated dial_token joined decode unmarshal read_endpoints
    read_tail validate check_signature use_nonce has_nonce save_nonce save_nonce_tx memory eqb
    be_value from_unix from_uint64 dial split_endpoints split_from try_each try_from hex_node_id
succeeds = refl

-- Without randomness there is no invite; with it, the listener and the relay are its endpoints.
handle_invite_run : (handle_invite toy host 3 none (pos 5)).result ≡ err internal
unfolding handle_invite create
handle_invite_run = refl

invite_endpoints_run :
    invite_endpoints toy host
    ≡ (b'h' ∷ []) ∷ (b'r' ∷ b'e' ∷ b'l' ∷ b'a' ∷ b'y' ∷ b':' ∷ b'/' ∷ b'/' ∷ b'r' ∷ []) ∷ []
unfolding invite_endpoints is_routable_listen_addr eqb
invite_endpoints_run = refl

-- No peer yet: the status says so, and the list of peers is empty.
peers_run :
    (handle toy host memory key_json no_entries no_hints
      (network (λ addr. true))
      (calling peers)
      (start (λ addr. true))).0
    ≡ record { id = 3; result = ok (peers_reply []) }
unfolding handle list_peers collect memory
peers_run = refl

short_id_run : short_id (replicate 17 97) ≡ replicate 16 97
unfolding short_id
short_id_run = refl

-- The token that `host` gives out at the fourth second, for a day.
abbrev given : Bytes
given =
    prefix
    ++ (((replicate 32 1 ++ (0 ∷ 2 ∷ []))
          ++ (0 ∷ 1 ∷ b'h' ∷ 0 ∷ 9 ∷ b'r' ∷ b'e' ∷ b'l' ∷ b'a' ∷ b'y' ∷ b':' ∷ b'/' ∷ b'/' ∷ b'r'
              ∷ [])
          ++ replicate 16 7
          ++ (0 ∷ 0 ∷ 0 ∷ 0 ∷ 0 ∷ 1 ∷ 81 ∷ 132 ∷ []))
        ++ replicate 64 5)

abbrev joining : Call
joining = record {
  request = record { id = 4; method = join; params = given };
  random = none;
  now = pos 5000000000;
  later = pos 5000000001;
}

abbrev saved_store : kin.Peerstore.Store memory key_json
saved_store = (save_nonce memory key_json (replicate 16 7) (start (λ addr. true)).store).1

raw_given : eqb raw [] ≡ false
unfolding eqb
raw_given = refl

join_direct-handle_join_example :
    Agree toy host memory key_json no_entries no_hints
      (network (λ addr. true))
      3
      (start (λ addr. true))
      (join_direct toy
        (λ bs. bs)
        memory
        key_json
        (network (λ addr. true))
        true
        raw
        (pos 4000000000)
        (pos 4000000001)
        (start (λ addr. true)).store
        [])
      (join_param toy host memory key_json no_entries no_hints
        (network (λ addr. true))
        3
        (some raw)
        (pos 4000000000)
        (pos 4000000001)
        (start (λ addr. true)))
join_direct-handle_join_example =
    join_direct-handle_join toy host memory key_json no_entries no_hints (network (λ addr. true)) 3
      raw (pos 4000000000) (pos 4000000001) (start (λ addr. true)) raw_given
