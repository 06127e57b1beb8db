-- ===== src/App/Logged.antt =====
-- response.go, router.go: a request from its route to its line in the log. `encode` is the JSON of a
-- reply, `wrote` how many bytes of a body the connection takes.
use arda_wed_gateway.Base.{
  ℕ, ◌≡◌, ◌≢◌, refl, ap, ◌∙◌, true, Option, List, [], ◌∷◌, leb, arith, ==_iff, subst, sym,
}
use arda_wed_gateway.Base.Text.{Text}
use arda_wed_gateway.Base.Text.Utf8.{to_bytes}
use arda_wed_gateway.State.Service.{StateService}
use arda_wed_gateway.Gateway.Manager.{Clock}
use arda_wed_gateway.Http.Response.{Reply, Body, success, error}
use arda_wed_gateway.App.Contract.{
  Contract, responds, upgrades, outside, contract_of, is_documented, is_error, Conforms,
}
use arda_wed_gateway.App.Conforms.{handle-Conforms}
use arda_wed_gateway.Http.Recorder.{
  StatusRecorder, LogLine, Write, writes_header, writes, hijacks, next_request_id,
  with_request_logging, serve, do_write, write_header, write, new_status_recorder,
}
use arda_wed_gateway.Http.Logged.{wire_status, taken, IsOrderly, logged_as_sent}
use arda_wed_gateway.Http.Router.{Router}
use arda_wed_gateway.App.{Platform, Request, Answer, json, page, gave_up, opened, handle}

module _ (encode : Reply → List ℕ) (wrote : List ℕ → ℕ) where
  -- writeJSON
  unfoldable pub write_json : Reply → List Write
  write_json r = writes_header r.status ∷ writes (encode r) (wrote (encode r)) ∷ []

  -- What a handler does to its writer: a reply in JSON, the page, or a Hijack.
  unfoldable pub writes_of_answer : Answer → List Write
  unfolding write_json
  writes_of_answer (json r) = write_json r
  writes_of_answer (page (status, text)) =
      writes_header status ∷ writes (to_bytes text) (wrote (to_bytes text)) ∷ []
  writes_of_answer gave_up = hijacks true ∷ []
  writes_of_answer (opened i) = hijacks true ∷ []

  -- A request with its identity, its handler and its line in the log.
  unfoldable pub serve_logged {ℓ κ} :
      {S : Type ℓ} {M : Type κ}
      → StateService S M
      → Platform
      → Text
      → Text
      → Text
      → Clock
      → Request M
      → Router S
      → StatusRecorder × LogLine
  unfolding with_request_logging handle writes_of_answer
  serve_logged service p method path id_stamp clock request r =
      (with_request_logging
        (λ id.
          writes_of_answer
            (handle service p id clock request
              (record r { counter = (next_request_id id_stamp r.counter).0 })).1)
        id_stamp method path r.counter).1

  -- The status of a reply that keeps its contract is not 0.
  documented_status :
      (errors : Option (List ℕ)) (n : ℕ) (b : Body) → is_documented errors n b ≡ true → n ≢ 0
  unfolding is_documented
  documented_status errors n (success payload) h = ground (arith, ==_iff n 200)
  documented_status errors n (error e) h = ground arith

  error_status : (n : ℕ) (b : Body) → is_error n b ≡ true → n ≢ 0
  unfolding is_error
  error_status n (success payload) h = cc
  error_status n (error e) h = ground arith

  json-kept :
      (id : Text) (c : Contract) (reply : Reply)
      → Conforms id c (json reply)
      → (reply.status ≢ 0) × (reply.meta.request_id ≡ id)
  json-kept id (responds schema errors) reply h =
      (documented_status errors reply.status reply.body h.0, h.2)
  json-kept id upgrades reply h = (error_status reply.status reply.body h.0, h.1)
  json-kept id outside reply h = elim h [ ]

  written_wire :
      (reply : Reply)
      → wire_status (serve (write_json reply) new_status_recorder).sent ≡ reply.status
  unfolding write_json serve do_write write_header write new_status_recorder
  written_wire reply = refl

  written_bytes : (reply : Reply) → taken (write_json reply) ≡ wrote (encode reply)
  unfolding write_json taken
  written_bytes reply = omega arith

  written-IsOrderly : (reply : Reply) → reply.status ≢ 0 → IsOrderly (write_json reply)
  unfolding write_json
  written-IsOrderly reply z = (z, (tt, tt))

  -- A request that is answered in JSON: the line in the log has the status of the reply, which is also
  -- the one that the client receives, the number of bytes of its JSON that the connection took, and
  -- the identity that the reply carries; it is an info line exactly for an error. This holds for every
  -- endpoint and in every state of the gateway.
  pub serve_logged-reply {ℓ κ} :
      {S : Type ℓ} {M : Type κ} (service : StateService S M) (p : Platform)
      (method path id_stamp : Text) (clock : Clock) (request : Request M) (r : Router S)
      (reply : Reply)
      → (handle service p
          (next_request_id id_stamp r.counter).1
          clock
          request
          (record r { counter = (next_request_id id_stamp r.counter).0 })).1
        ≡ json reply
      → let (rec, line) = serve_logged service p method path id_stamp clock request r in
        (line.request_id ≡ reply.meta.request_id)
        × (line.status ≡ reply.status)
        × (wire_status rec.sent ≡ reply.status)
        × (line.bytes ≡ wrote (encode reply))
        × (line.info ≡ leb 400 reply.status)
  unfolding serve_logged
  serve_logged-reply service p method path id_stamp clock request r reply e =
      let id : Text = (next_request_id id_stamp r.counter).1 in
      let r1 = record r { counter = (next_request_id id_stamp r.counter).0 } in
      let next : Text → List Write =
        λ i. writes_of_answer (handle service p i clock request r1).1 in
      let (z, same_id) = json-kept id (contract_of request) reply (
        subst (Conforms id (contract_of request)) e
          (handle-Conforms service p id clock request r1)) in
      let wrote_json : next id ≡ write_json reply =
        ap writes_of_answer e ∙ unfold writes_of_answer in refl in
      let (ids, status, bytes, info) =
        logged_as_sent next id_stamp method path r.counter
          (subst IsOrderly (sym wrote_json) (written-IsOrderly reply z)) in
      let wire =
        ap (λ ws. wire_status (serve ws new_status_recorder).sent) wrote_json
        ∙ written_wire reply in
      (
        ids ∙ sym same_id,
        status ∙ wire,
        wire,
        bytes ∙ ap taken wrote_json ∙ written_bytes reply,
        info ∙ ap (leb 400) wire,
      )
