-- ===== src/Stream/Inner/Delivers.antt =====
-- What the session's tasks keep of a stream (src/stream/inner.rs), one event after the other.
use net_mux.Base.{List, [], ◌∷◌}
use net_mux.Stream.Channel.{Wires}
use net_mux.Stream.Inner.{StreamInner, Event, deliver, deliver_all}

module _ (P : StreamInner → Wires → Type 0)
    (delivers : (e : Event) (s : StreamInner) (w : Wires)
      → P s w
      → P (deliver e (s, w)).0 (deliver e (s, w)).1) where
  pub all-keeps :
      (es : List Event) (s : StreamInner) (w : Wires)
      → P s w
      → P (deliver_all es (s, w)).0 (deliver_all es (s, w)).1
  unfolding deliver_all
  all-keeps [] s w h = h
  all-keeps (e ∷ es) s w h = let sw = deliver e (s, w) in all-keeps es sw.0 sw.1 (delivers e s w h)
