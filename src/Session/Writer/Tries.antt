-- ===== src/Session/Writer/Tries.antt =====
-- What the sink of the writer task (src/session/writer.rs) accepts of the frames that it is offered, on
-- a connection that may fail at any flush.
use mathlib.Core.List.{Sublistᴰ}
use mathlib.Core.List.Sublistᴰ
use net_mux.Base.{
  ℕ, suc, ◌≡◌, ◌∙◌, refl, ap, sym, Option, none, some, List, [], ◌∷◌, ◌++◌, append-nil,
  append_assoc, take, drop, take-append-drop, inl, inr,
}
use net_mux.Error.{Result-cases}
use net_mux.Protocol.Frame.{Bitflags, Frame}
use net_mux.Protocol.Header
use net_mux.Protocol.Codec.{FrameCodec, encode, parts_of, header_of, payload_bytes}
use net_mux.Protocol.Codec.Batch.{spelling}
use net_mux.Session.Writer.{
  Sink, Answer, takes_all, breaks, flush, make_room, feed, write_one, drain,
}
use net_mux.Session.Writer.Delivery.{accepted}

-- A flush moves bytes from the buffer to the connection and loses none.
flush-accepted : (a : Answer) (k : Sink) → accepted (flush a k).0 ≡ accepted k
unfolding flush
flush-accepted takes_all k = append-nil (k.written ++ k.buffer)
flush-accepted (breaks n e) k =
    append_assoc k.written (take n k.buffer) (drop n k.buffer)
    ∙ ap (λ x. k.written ++ x) (take-append-drop n k.buffer)

flush-codec : (a : Answer) (k : Sink) → (flush a k).0.codec ≡ k.codec
unfolding flush
flush-codec takes_all k = refl
flush-codec (breaks n e) k = refl

make_room-accepted : (a : Option Answer) (k : Sink) → accepted (make_room a k).0 ≡ accepted k
unfolding make_room
make_room-accepted none k = refl
make_room-accepted (some a) k = flush-accepted a k

make_room-codec : (a : Option Answer) (k : Sink) → (make_room a k).0.codec ≡ k.codec
unfolding make_room
make_room-codec none k = refl
make_room-codec (some a) k = flush-codec a k

module _ (b : Bitflags) where
  pub spelling-append :
      (c : FrameCodec) (fs gs : List Frame)
      → spelling b c (fs ++ gs) ≡ spelling b c fs ++ spelling b c gs
  spelling-append c [] gs = refl
  spelling-append c (f ∷ fs) gs =
      ap (λ x. (encode b c f []).0 ++ x) (spelling-append c fs gs)
      ∙ sym (append_assoc (encode b c f []).0 (spelling b c fs) (spelling b c gs))

  -- A frame that the codec refuses leaves its buffer alone.
  encode_appends :
      (c : FrameCodec) (f : Frame) (dst : List ℕ)
      → (encode b c f dst).0 ≡ dst ++ spelling b c (f ∷ [])
  unfolding encode
  encode_appends c f dst = elim (Result-cases (parts_of b c f)) [
    | inl (p, e) ↦
        rw (encode, e, append-nil)
          (append_assoc dst (Header.encode (header_of p)) (payload_bytes p.payload))
    | inr (x, e) ↦ rw (encode, e) (sym (append-nil _))
  ]

  -- What a sink has accepted on the way from `k` to `l`.
  pub record Accepts (k l : Sink) (sent : List Frame) : Type 0 where
    pub same : l.codec ≡ k.codec
    pub grown : accepted l ≡ accepted k ++ spelling b k.codec sent

  pub stays : (k : Sink) → Accepts k k []
  stays k = record { same = refl; grown = sym (append-nil _) }

  pub Accepts-trans :
      (k l m : Sink) (fs gs : List Frame) → Accepts k l fs → Accepts l m gs → Accepts k m (fs ++ gs)
  Accepts-trans k l m fs gs h i = record {
    same = i.same ∙ h.same;
    grown =
        i.grown
        ∙ (ap (λ c. accepted l ++ spelling b c gs) h.same
            ∙ (ap (λ x. x ++ spelling b k.codec gs) h.grown
                ∙ (append_assoc (accepted k) (spelling b k.codec fs) (spelling b k.codec gs)
                    ∙ ap (λ x. accepted k ++ x) (sym (spelling-append k.codec fs gs)))));
  }

  pub flush-Accepts : (a : Answer) (k : Sink) → Accepts k (flush a k).0 []
  flush-Accepts a k = record {
    same = flush-codec a k;
    grown = flush-accepted a k ∙ sym (append-nil _);
  }

  -- A frame is accepted whole, or not at all.
  pub record Tries (k l : Sink) (offered : List Frame) : Type 0 where
    pub sent : List Frame
    pub chosen : Sublistᴰ sent offered
    pub took : Accepts k l sent

  Tries-trans :
      (k l m : Sink) (fs gs : List Frame) → Tries k l fs → Tries l m gs → Tries k m (fs ++ gs)
  Tries-trans k l m fs gs h i = record {
    sent = h.sent ++ i.sent;
    chosen = Sublistᴰ.append h.chosen i.chosen;
    took = Accepts-trans k l m h.sent i.sent h.took i.took;
  }

  pub feed-Tries : (a : Option Answer) (k : Sink) (f : Frame) → Tries k (feed b a k f).0 (f ∷ [])
  unfolding feed
  feed-Tries a k f =
      let l = (make_room a k).0 in
      let same = make_room-codec a k in
      let held = make_room-accepted a k in
      elim (Result-cases (make_room a k).1) [
        | inl (u, e) ↦
            rw (feed, e)
              (record {
                sent = f ∷ [];
                chosen = Sublistᴰ.refl (f ∷ []);
                took = record {
                  same = same;
                  grown =
                      ap (λ x. l.written ++ x) (encode_appends l.codec f l.buffer)
                      ∙ (sym (append_assoc l.written l.buffer (spelling b l.codec (f ∷ [])))
                          ∙ (ap (λ c. accepted l ++ spelling b c (f ∷ [])) same
                              ∙ ap (λ x. x ++ spelling b k.codec (f ∷ [])) held));
                };
              })
        | inr (x, e) ↦
            rw (feed, e)
              (record {
                sent = [];
                chosen = Sublistᴰ.nil-sublist (f ∷ []);
                took = record { same = same; grown = held ∙ sym (append-nil (accepted k)) };
              })
      ]

  pub write_one-Tries :
      (a : Option Answer × Answer) (k : Sink) (f : Frame) → Tries k (write_one b a k f).0 (f ∷ [])
  unfolding write_one
  write_one-Tries a k f =
      let h = feed-Tries a.0 k f in
      let l = (feed b a.0 k f).0 in
      elim (Result-cases (feed b a.0 k f).1) [
        | inl (u, e) ↦
            rw (write_one, e)
              (record {
                sent = h.sent ++ [];
                chosen = rw (append-nil) h.chosen;
                took = Accepts-trans k l (flush a.1 l).0 h.sent [] h.took (flush-Accepts a.1 l);
              })
        | inr (x, e) ↦ rw (write_one, e) h
      ]

  pub drain-Tries :
      (ready : ℕ → Option Answer) (last : Answer) (fs : List Frame) (k : Sink)
      → Tries k (drain b ready last fs k) fs
  unfolding drain
  drain-Tries ready last [] k = record {
    sent = [];
    chosen = Sublistᴰ.slnil;
    took = flush-Accepts last k;
  }
  drain-Tries ready last (f ∷ fs) k =
      let h = feed-Tries (ready 0) k f in
      let l = (feed b (ready 0) k f).0 in
      let m = drain b (λ i. ready (suc i)) last fs l in
      elim (Result-cases (feed b (ready 0) k f).1) [
        | inl (u, e) ↦
            rw (drain, e)
              (Tries-trans k l m (f ∷ []) fs h (drain-Tries (λ i. ready (suc i)) last fs l))
        | inr (x, e) ↦
            rw (drain, e)
              (record {
                sent = h.sent;
                chosen =
                    Sublistᴰ.trans h.chosen (Sublistᴰ.cons-cons refl (Sublistᴰ.nil-sublist fs));
                took = h.took;
              })
      ]
