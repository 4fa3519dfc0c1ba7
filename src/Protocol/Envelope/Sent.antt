-- ===== src/Protocol/Envelope/Sent.antt =====
-- An envelope survives being sent (packages/foundation/stockstat_foundation/protocol/envelope.py).
use stock_statistic.Common.{
  ℕ, ◌≡◌, ◌≢◌, refl, true, none, some, List, [], ◌∷◌, Bool-cases, inl, inr,
}
use stock_statistic.Common.Text.{Text, codes, text_eq}
use stock_statistic.Protocol.Value.{Fields, texts_of-of_texts}
use stock_statistic.Protocol.RoundTrip.{opt_text}
use stock_statistic.Protocol.Envelope.{
  Headers, headers_to_dict, headers_from_dict, Payload, plain, raw, Envelope, Encodings, wire,
  encode, envelope_from_dict, decode, reply, is_reply,
}

headers_round_trip : (h : Headers) → headers_from_dict (headers_to_dict h) ≡ some h
unfolding headers_from_dict headers_to_dict text_eq
headers_round_trip h = simp texts_of-of_texts

-- What is asked of the encodings for an envelope: JSON reads what it wrote, and refuses what
-- msgpack wrote, which msgpack reads; base64 reads what it wrote.
pub record Reads (w : Encodings) (e : Envelope) : Type 0 where
  pub base64 : (b : List ℕ) → w.b64decode (w.b64encode b) ≡ b
  pub json : w.json_loads (w.json_dumps (wire w e)) ≡ some (wire w e)
  pub not_json : w.json_loads (w.msgpack_dumps (wire w e)) ≡ none
  pub msgpack : w.msgpack_loads (w.msgpack_dumps (wire w e)) ≡ some (wire w e)

module _ (w : Encodings) (fresh : Text) where
  wire_round_trip :
      (e : Envelope) (id : Text) (p : Payload)
      → ((b : List ℕ) → w.b64decode (w.b64encode b) ≡ b)
      → id ≢ []
      → envelope_from_dict w fresh (wire w (record e { id = id; payload = p }))
        ≡ some (record e { id = id; payload = p })
  unfolding envelope_from_dict wire text_eq
  wire_round_trip e [] p h named = absurd (named refl)
  wire_round_trip e (c ∷ cs) (plain v) h named = simp (headers_round_trip, opt_text)
  wire_round_trip e (c ∷ cs) (raw b) h named = simp (headers_round_trip, opt_text, h)

  decode_json :
      (e : Envelope) (bytes : List ℕ) (d : Fields)
      → w.json_loads bytes ≡ some d
      → envelope_from_dict w fresh d ≡ some e
      → decode w fresh bytes ≡ some e
  unfolding decode
  decode_json e bytes d read same = rw (read, decode) same

  decode_msgpack :
      (e : Envelope) (bytes : List ℕ) (d : Fields)
      → w.json_loads bytes ≡ none
      → w.msgpack_loads bytes ≡ some d
      → envelope_from_dict w fresh d ≡ some e
      → decode w fresh bytes ≡ some e
  unfolding decode
  decode_msgpack e bytes d not_json read same = rw (not_json, decode) (rw (read, decode) same)

  id_kept : (e : Envelope) → Reads w e → e.id ≢ [] → envelope_from_dict w fresh (wire w e) ≡ some e
  id_kept e h named = wire_round_trip e e.id e.payload h.base64 named

-- Where the encodings read what they wrote, an envelope with an id that is encoded, in JSON or in
-- msgpack, decodes to itself.
pub decode-encode :
    (w : Encodings) (fresh : Text) (e : Envelope)
    → Reads w e
    → e.id ≢ []
    → decode w fresh (encode w e) ≡ some e
unfolding encode
decode-encode w fresh e h named = elim (Bool-cases (text_eq e.headers.encoding (codes "msgpack"))) [
  | inl packed ↦
      rw packed
        (decode_msgpack w fresh e _ (wire w e) h.not_json h.msgpack (id_kept w fresh e h named))
  | inr plain_text ↦
      rw plain_text (decode_json w fresh e _ (wire w e) h.json (id_kept w fresh e h named))
]

-- A reply, encoded and decoded, is a reply: it names the envelope that it answers, and has its
-- trace, its protocol version and its encoding.
pub decode-encode-reply :
    (w : Encodings) (fresh id type : Text) (payload : Payload) (content_type : Text) (e : Envelope)
    → Reads w (reply id type payload content_type e)
    → id ≢ []
    → (r : Envelope) × (decode w fresh (encode w (reply id type payload content_type e)) ≡ some r)
      × (is_reply r ≡ true)
      × (r.reply_to ≡ some e.id)
      × (r.headers.trace_id ≡ e.headers.trace_id)
      × (r.headers.protocol_version ≡ e.headers.protocol_version)
      × (r.headers.encoding ≡ e.headers.encoding)
unfolding reply
decode-encode-reply w fresh id type payload content_type e h named =
    let r = reply id type payload content_type e in
    (r, decode-encode w fresh r h named, refl, refl, refl, refl, refl)
