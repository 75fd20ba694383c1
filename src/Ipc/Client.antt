-- ===== src/Ipc/Client.antt =====
-- internal/ipc/client.go: the daemon's clients.
pub mod Calls
pub mod Subscribe
use kin.Base.{
  ℕ, ◌+◌, ◌^◌, ◌%◌, ◌≡◌, Bool, true, false, Option, none, some, List, [], ◌∷◌, ◌++◌, ltb,
  if◌then◌else◌, length, Bytes, Result, ok, err,
}
use kin.Base.Streams.{Reader, Writer}
use kin.Bolt.{Json}
use kin.Ipc.{Request, ErrorInfo, Response, Event}
use kin.Ipc.Framing.{WriteError, JsonError, write_json, read_json}
use kin.Ipc.Server.{method_subscribe}

pub data ClientError : Type 0 where
  params_failed data_failed : ClientError
  not_sent : WriteError → ClientError
  not_received : JsonError → ClientError
  refused : ErrorInfo → ClientError

-- `Client`: the counter of ids, which is 64 bits wide, and its connection.
pub record Client : Type 0 where
  pub next_id : ℕ
  pub incoming : Reader
  pub outgoing : Writer

abbrev pub zero_response : Response
zero_response = record { id = 0; error = none; raw_data = [] }

-- `nextID.Add(1)`
abbrev pub new_id : Client → ℕ
new_id c = (c.next_id + 1) % 2 ^ 64

abbrev pub with_id : Client → Client
with_id c = record c { next_id = new_id c }

module _ (requests : Json Request) (responses : Json Response) where
  abbrev pub sent :
      Client → Result WriteError (Unit {0}) × Writer → Result ClientError (Unit {0}) × Client
  sent c (ok u, w) = (ok tt, record c { outgoing = w })
  sent c (err e, w) = (err (not_sent e), record c { outgoing = w })

  pub send_request : Request → Client → Result ClientError (Unit {0}) × Client
  send_request req c = sent c (write_json requests req c.outgoing)

  abbrev pub got :
      Client → Result JsonError Response × Reader → Result ClientError Response × Client
  got c (ok resp, r) = (ok resp, record c { incoming = r })
  got c (err e, r) = (err (not_received e), record c { incoming = r })

  pub receive_response : Client → Result ClientError Response × Client
  receive_response c = got c (read_json responses zero_response c.incoming)

  -- `daemon` is what the other end does with what it has been sent, in the state `D` it keeps.
  module _ {D : Type 0} (daemon : Client → D → Client × D) where
    abbrev pub received :
        Result ClientError (Unit {0}) × Client → D → Result ClientError Response × Client × D
    received (err e, c) d = (err e, c, d)
    received (ok u, c) d =
        let (c', d') = daemon c d in let (r, c'') = receive_response c' in (r, c'', d')

    -- `call`; `params` is what `json.Marshal` gives for them, or nothing where there are none.
    pub call : Bytes → Option Bytes → Client → D → Result ClientError Response × Client × D
    unfolding send_request receive_response
    call method none c d = (err params_failed, with_id c, d)
    call method (some params) c d =
        received
          (send_request (record { id = new_id c; method = method; params = params }) (with_id c)) d

    -- The end of `callAndDecode`: a response with an error is one, and else its data is decoded.
    abbrev pub decode_data : {T : Type 0} → Json T → Response → Result ClientError T
    decode_data json r = elim r.error [
      | some e ↦ err (refused e)
      | none ↦ elim (json.unmarshal r.raw_data) [ none ↦ err data_failed | some v ↦ ok v ]
    ]

    abbrev pub decoded : {T : Type 0} → Json T → Result ClientError Response → Result ClientError T
    decoded json (err e) = err e
    decoded json (ok r) = decode_data json r

    pub call_and_decode :
        {T : Type 0}
        → Json T
        → Bytes
        → Option Bytes
        → Client
        → D
        → Result ClientError T × Client × D
    unfolding call
    call_and_decode json method params c d =
        let (r, c', d') = call method params c d in (decoded json r, c', d')
