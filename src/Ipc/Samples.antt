-- ===== src/Ipc/Samples.antt =====
-- JSONs for runs.
use kin.Base.{sym, ap, none, some, some_injective, [], ◌∷◌, drop}
use kin.Bolt.{Json}
use kin.Ipc.{Request, Response, Event}

-- A JSON that keeps the method of a request, and one that keeps the data of a response.
abbrev pub requests : Json Request
requests = record {
  marshal = λ r. some (1 ∷ r.method);
  unmarshal = λ raw. some (record { id = 0; method = drop 1 raw; params = [] });
  repair = λ r. record { id = 0; method = r.method; params = [] };
  unmarshal-marshal = λ r raw e.
      ap (λ b. some (record { id = 0; method = drop 1 b; params = [] })) (sym (some_injective e));
}

abbrev pub responses : Json Response
responses = record {
  marshal = λ r. some (1 ∷ r.raw_data);
  unmarshal = λ raw. some (record { id = 0; error = none; raw_data = drop 1 raw });
  repair = λ r. record { id = 0; error = none; raw_data = r.raw_data };
  unmarshal-marshal = λ r raw e.
      ap (λ b. some (record { id = 0; error = none; raw_data = drop 1 b }))
        (sym (some_injective e));
}

-- A JSON that keeps an event's kind.
abbrev pub events : Json Event
events = record {
  marshal = λ ev. some (1 ∷ ev.kind);
  unmarshal = λ raw. some (record { kind = drop 1 raw; raw_data = [] });
  repair = λ ev. record { kind = ev.kind; raw_data = [] };
  unmarshal-marshal = λ ev raw e.
      ap (λ b. some (record { kind = drop 1 b; raw_data = [] })) (sym (some_injective e));
}
