-- ===== src/Session/Machine/Sent.antt =====
-- The frames that the writer of a session (src/session/writer.rs) has put out so far, for each run of
-- the machine.
use net_mux.Base.{◌≡◌, ◌∙◌, refl, sym, ap, List, [], ◌++◌}
use net_mux.Config.{Config}
use net_mux.Util.Id.{Role}
use net_mux.Protocol.Frame.{Bitflags, Frame}
use net_mux.Protocol.Codec
use net_mux.Protocol.Codec.{FrameCodec}
use net_mux.Protocol.Codec.Batch.{spelling}
use net_mux.Session.Inner.{new as new_session}
use net_mux.Session.Writer.{Sink}
use net_mux.Session.Writer.Delivery.{accepted}
use net_mux.Session.Writer.Tries.{Accepts, spelling-append}
use net_mux.Session.Machine.Says.{turn-Says, feed-Says, flush-Says}
use net_mux.Session.Machine.{
  Machine, Step, reads, writes, drains, flushes, writer_ends, removes, pings, takes_pongs,
  times_out, uses, accepts, closes, joins, open_checks, open_exhausted, open_allocates,
  open_clashes, open_registers, open_refused, open_announces, open_ends, Reach, start, later,
}

module _ (b : Bitflags) where
  -- The frames that the sink has accepted, behind a step: the writer's turn adds its own.
  unfoldable pub extend : {m n : Machine} → Step b m n → List Frame → List Frame
  extend {m} (writes a e) sent = sent ++ (turn-Says b a m.session m.sink).sent
  extend {m} (drains a f q x l e) sent = sent ++ (feed-Says b a m.session m.sink f q l).sent
  extend {m} (flushes a x l e) sent = sent ++ (flush-Says b a m.session m.sink).sent
  extend _ sent = sent

  unfoldable pub sent_of :
      {config : Config} {role : Role} {m : Machine} → Reach b config role m → List Frame
  sent_of start = []
  sent_of (later r s) = extend s (sent_of r)

  -- A sink that has accepted these frames.
  pub record Spelt (c : FrameCodec) (k : Sink) (sent : List Frame) : Type 0 where
    pub codec : k.codec ≡ c
    pub spelt : accepted k ≡ spelling b c sent

  more-Spelt :
      (c : FrameCodec) (k l : Sink) (sent more : List Frame)
      → Accepts b k l more
      → Spelt c k sent
      → Spelt c l (sent ++ more)
  more-Spelt c k l sent more h v = record {
    codec = h.same ∙ v.codec;
    spelt =
        h.grown
        ∙ (ap (λ d. accepted k ++ spelling b d more) v.codec
            ∙ (ap (λ x. x ++ spelling b c more) v.spelt ∙ sym (spelling-append b c sent more)));
  }

  Step-Spelt :
      (c : FrameCodec) (m n : Machine) (st : Step b m n) (sent : List Frame)
      → Spelt c m.sink sent
      → Spelt c n.sink (extend st sent)
  unfolding extend
  Step-Spelt c m n (writes a e) sent v =
      let h = turn-Says b a m.session m.sink in rw e (more-Spelt c m.sink _ sent h.sent h.took v)
  Step-Spelt c m n (drains a f q x l e) sent v =
      let h = feed-Says b a m.session m.sink f q l in
      rw e (more-Spelt c m.sink _ sent h.sent h.took v)
  Step-Spelt c m n (flushes a x l e) sent v =
      let h = flush-Says b a m.session m.sink in rw e (more-Spelt c m.sink _ sent h.sent h.took v)
  Step-Spelt c m n (reads i e) sent v = rw e v
  Step-Spelt c m n (writer_ends e) sent v = rw e v
  Step-Spelt c m n (removes e) sent v = rw e v
  Step-Spelt c m n (pings k e) sent v = rw e v
  Step-Spelt c m n (takes_pongs k g e) sent v = rw e v
  Step-Spelt c m n (times_out e) sent v = rw e v
  Step-Spelt c m n (uses p x a at e) sent v = rw e v
  Step-Spelt c m n (accepts s e) sent v = rw e v
  Step-Spelt c m n (closes e) sent v = rw e v
  Step-Spelt c m n (joins e) sent v = rw e v
  Step-Spelt c m n (open_checks i h may e) sent v = rw e v
  Step-Spelt c m n (open_exhausted i h x e) sent v = rw e v
  Step-Spelt c m n (open_allocates i id h x e) sent v = rw e v
  Step-Spelt c m n (open_clashes i id f h x e) sent v = rw e v
  Step-Spelt c m n (open_registers i id r h x e) sent v = rw e v
  Step-Spelt c m n (open_refused i id p h x e) sent v = rw e v
  Step-Spelt c m n (open_announces i id p h x e) sent v = rw e v
  Step-Spelt c m n (open_ends i id p w h e) sent v = rw e v

  pub Reach-Spelt :
      (config : Config) (role : Role) {m : Machine} (r : Reach b config role m)
      → Spelt (Codec.new config.max_frame_size) m.sink (sent_of r)
  unfolding sent_of new_session
  Reach-Spelt config role start = record { codec = refl; spelt = refl }
  Reach-Spelt config role (later {m} {n} r s) =
      Step-Spelt (Codec.new config.max_frame_size) m n s (sent_of r) (Reach-Spelt config role r)
