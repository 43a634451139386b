-- ===== src/Adapter/Tests.antt =====
-- The Qt adapter at concrete inputs: texts are bytes.
use zmq_pubsub_testing.Base.{
  ◌≡◌, refl, ℕ, Bytes, Bytes-discrete, ℕ_discrete, List, [], ◌∷◌, codes, some, Option,
}
use zmq_pubsub_testing.Base.Maps.{find, assign, erase}
use zmq_pubsub_testing.Wire.{Envelope}
use zmq_pubsub_testing.Client.{
  envelope_of, perform_registration, perform_unregistration, make_manager, without_instance,
}
use zmq_pubsub_testing.Client.Session.{waiting, init, flush, register_internal, unregister_callback}
use zmq_pubsub_testing.Adapter.{Qt, make_adapter, register, unregister, post, post_each, posted}
use zmq_pubsub_testing.Adapter.Removal.{
  Call, makes, registers, apply_call, apply_calls, posted_by, without_context, posted_by-unregister,
}
use zmq_pubsub_testing.Adapter.Ordering.{posted_by-apply_calls}

abbrev qt : Qt
qt = record {
  QString = Bytes;
  to_std_string = λ s. s;
  from_std_string = λ b. b;
  QJsonObject = Bytes;
  to_json = λ j. j;
  object_of = λ b. b;
}

abbrev news : Bytes
news = codes "news"

-- A function is a number, and takes any bytes.
abbrev any_bytes : ℕ → Bytes → Option Bytes
any_bytes f raw = some raw

abbrev set_up : List (Call Bytes ℕ)
set_up = registers news 5 1 ∷ makes (codes "gui") ∷ registers news 6 2 ∷ []

abbrev message : Envelope
message = envelope_of (codes "alice") news news (codes "x")

posted_by-unregister_example :
    posted_by any_bytes (unregister qt (apply_calls qt (waiting []) set_up) news 5) message
    ≡ without_context 5 (posted_by any_bytes (apply_calls qt (waiting []) set_up) message)
unfolding Bytes-discrete ℕ_discrete
posted_by-unregister_example = posted_by-unregister qt any_bytes set_up news 5 message

-- The other context still gets the message.
other_context :
    posted_by any_bytes (unregister qt (apply_calls qt (waiting []) set_up) news 5) message
    ≡ record { context = 6; func = 2; value = codes "x" } ∷ []
unfolding posted_by unregister apply_calls apply_call make_adapter register init flush
    register_internal unregister_callback perform_registration perform_unregistration make_manager
    without_instance post post_each posted find assign erase Bytes-discrete ℕ_discrete
other_context = refl

-- The function that was registered before the constructor comes first.
posted_by-apply_calls_example :
    posted_by any_bytes (apply_calls qt (waiting []) set_up) message
    ≡ record { context = 5; func = 1; value = codes "x" }
      ∷ record { context = 6; func = 2; value = codes "x" }
      ∷ []
unfolding Bytes-discrete ℕ_discrete
posted_by-apply_calls_example = posted_by-apply_calls qt any_bytes message set_up tt
