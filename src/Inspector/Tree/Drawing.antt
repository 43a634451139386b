-- ===== src/Inspector/Tree/Drawing.antt =====
-- inspector/protoutils.h: what is drawn of a payload that a client of the library packed.
use zmq_pubsub_testing.Base.{
  ◌≡◌, ◌≢◌, refl, ap, Bytes, Bool, true, false, [], ◌∷◌, ◌++◌, none, some, ◌==◌, if◌then◌else◌,
  arith,
}
use zmq_pubsub_testing.Broker.Peers.{starts_with}
use zmq_pubsub_testing.Client.Payload.{any_prefix}
use zmq_pubsub_testing.Wire.{Header}
use zmq_pubsub_testing.Inspector.Tree.{
  Fields, Items, leaf, node, populate, behind_slash, type_name_of, Reflection, dynamically_unpack,
  draw_payload, draw_envelope_and_payload,
}
use zmq_pubsub_testing.Inspector.Tree.Reading.{IsPrinted, shown, read, read-populate}

-- A type's full name has no slash.
unfoldable pub has_slash : Bytes → Bool
has_slash [] = false
has_slash (c ∷ cs) = let rest = has_slash cs in if c == b'/' then true else rest

behind_slash-none : (name : Bytes) → has_slash name ≡ false → behind_slash name ≡ none
unfolding behind_slash has_slash
behind_slash-none [] h = refl
behind_slash-none (c ∷ cs) h = ground (arith, behind_slash-none cs)

type_name_of-any_prefix :
    (name : Bytes) → has_slash name ≡ false → type_name_of (any_prefix ++ name) ≡ name
unfolding type_name_of behind_slash
type_name_of-any_prefix name h = rw (behind_slash-none name h) refl

starts_with-append : (p text : Bytes) → starts_with p (p ++ text) ≡ true
unfolding starts_with
starts_with-append [] text = refl
starts_with-append (c ∷ p) text = ground (arith, starts_with-append p text)

-- The second root of the tree: its texts, and the message that its children tell.
unfoldable pub told : Items → Bytes × Bytes × Fields
unfolding read
told leaf = ([], [], Fields.end)
told (node header text kids leaf) = ([], [], Fields.end)
told (node header text kids (node name value fields rest)) = (name, value, read fields)

module _ (r : Reflection) where
  module _ (any : r.Any) (name : Bytes) (d : r.Descriptor) (fs : Fields)
      (url : r.type_url any ≡ any_prefix ++ name) (plain : has_slash name ≡ false)
      (found : r.find_message_type name ≡ some d) (made : r.has_prototype d ≡ true)
      (unpacked : r.unpack_to d any ≡ some fs) where
    dynamically_unpack-packed : dynamically_unpack r any ≡ some (r.type_name d, fs)
    unfolding dynamically_unpack
    dynamically_unpack-packed =
        rw (dynamically_unpack, url, type_name_of-any_prefix name plain, found, made, unpacked) refl

    draw_payload-packed :
        (payload : Bytes)
        → r.parse_any payload ≡ some any
        → draw_payload r payload ≡ node (r.type_name d) [] (populate fs) leaf
    unfolding draw_payload
    draw_payload-packed payload parsed =
        rw
          (draw_payload, parsed, url, starts_with-append any_prefix name, dynamically_unpack-packed)
          refl

    -- If a payload is not empty and parses as an Any, whose type URL is type.googleapis.com/ and
    -- a name without a slash, the pool has a type of that name with a prototype, the Any unpacks
    -- into a message of that type, and its values are plain, then the tree has a second root that
    -- is labelled with the type's name and whose children read back as that message without its
    -- absent fields and final newlines.
    pub told-draw :
        (h : Header) (payload : Bytes)
        → payload ≢ []
        → r.parse_any payload ≡ some any
        → IsPrinted fs
        → told (draw_envelope_and_payload r h payload) ≡ (r.type_name d, [], shown fs)
    unfolding told draw_envelope_and_payload
    told-draw h [] full parsed printed = absurd (full refl)
    told-draw h (b ∷ bs) full parsed printed =
        rw (draw_payload-packed (b ∷ bs) parsed)
          (ap (λ m. (r.type_name d, [], m)) (read-populate fs printed))
