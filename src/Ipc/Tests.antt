-- ===== src/Ipc/Tests.antt =====
-- Requests for runs, and the theorems at concrete inputs.
use kin.Base.{
  ℕ, suc, ◌≤◌, ◌+◌, ◌-◌, ◌^◌, ◌%◌, ◌≡◌, ◌≢◌, refl, none, some, [], ◌∷◌, arith, length, eqb, ok,
}
use kin.Base.BigEndian.{be_bytes}
use kin.Base.Streams.{closed}
use kin.Protocol.Framing.{header}
use kin.Ipc.{Request, Response}
use kin.Ipc.Samples.{requests, responses}
use kin.Ipc.Framing.{frame, length-frame}
use kin.Ipc.Server.{Conn, next, ended, handle_conn}
use kin.Ipc.Server.Answers.{
  frames, open_conn, wrote, Answered, none_left, one_more, handle_conn-Answered,
}
use kin.Ipc.Server.Ends.{handle_conn-ended}
use kin.Ipc.Client.{call}
use kin.Ipc.Client.Calls.{at_rest, daemon_turn, call-answered}

-- The method comes back as the data, and the requests are counted.
abbrev echo : Request → ℕ → Response × ℕ
echo r s = (record { id = r.id; error = none; raw_data = r.method }, suc s)

two_calls :
    Answered requests responses echo 0
      ((1 ∷ 5 ∷ []) ∷ (1 ∷ 6 ∷ []) ∷ [])
      ((1 ∷ 5 ∷ []) ∷ (1 ∷ 6 ∷ []) ∷ [])
      2
unfolding eqb
two_calls =
    one_more {req = record { id = 1; method = 5 ∷ []; params = [] }}
      (refl, omega arith, omega arith) refl (refl, omega arith, omega arith)
      (one_more {req = record { id = 2; method = 6 ∷ []; params = [] }}
        (refl, omega arith, omega arith) refl (refl, omega arith, omega arith) none_left)

two_fit : length (frames ((1 ∷ 5 ∷ []) ∷ (1 ∷ 6 ∷ []) ∷ [])) ≤ 100
unfolding frames header be_bytes
two_fit = omega arith

handle_conn-Answered_example :
    handle_conn requests responses echo
      (open_conn (frames ((1 ∷ 5 ∷ []) ∷ (1 ∷ 6 ∷ []) ∷ [])) (record { written = []; room = 100 }))
      0
    ≡ (ended, open_conn [] (wrote [] 100 (frames ((1 ∷ 5 ∷ []) ∷ (1 ∷ 6 ∷ []) ∷ []))), 2)
handle_conn-Answered_example =
    handle_conn-Answered requests responses echo 100 [] 0 2 ((1 ∷ 5 ∷ []) ∷ (1 ∷ 6 ∷ []) ∷ [])
      ((1 ∷ 5 ∷ []) ∷ (1 ∷ 6 ∷ []) ∷ []) two_calls two_fit

-- A client that stops in the middle of a header.
abbrev cut : Conn
cut = record {
  incoming = record { pending = 0 ∷ 0 ∷ []; ending = closed };
  outgoing = record { written = []; room = 100 };
}

handle_conn-ended_example : (handle_conn requests responses echo cut 0).0 ≢ next
handle_conn-ended_example = handle_conn-ended requests responses echo cut 0

call-answered_example :
    call requests responses
      (daemon_turn requests responses echo 50)
      (5 ∷ [])
      (some [])
      (at_rest 7 50 closed)
      0
    ≡ (
      ok (record { id = 0; error = none; raw_data = 5 ∷ [] }),
      at_rest ((7 + 1) % 2 ^ 64) (50 - length (frame (1 ∷ 5 ∷ []))) closed,
      1,
    )
unfolding eqb
call-answered_example =
    call-answered requests responses echo (5 ∷ []) [] (1 ∷ 5 ∷ []) (1 ∷ 5 ∷ []) 7 50 50 closed 0
      (refl, omega arith, omega arith) refl (refl, omega arith, omega arith)
      (omega (arith, length-frame (1 ∷ 5 ∷ []))) (omega (arith, length-frame (1 ∷ 5 ∷ [])))
