-- ===== src/Stream/Manager.antt =====
-- internal/stream/manager.go: the streams of this process by their keys. The hooks run in goroutines of
-- their own: an operation returns which ones it starts.
pub mod Registry
use cam_server.Base.{
  String, List, [], ◌∷◌, Option, none, some, GoMap, lookup, insert, delete, values,
}
use cam_server.Stream.Fanout
use cam_server.Stream.Fanout.{LiveStream, new_stream, add_subscriber}
use cam_server.Stream.Pool.{Pool}
use cam_server.Subscriber.Defs.{Subscriber}

-- `StreamManager`
pub record StreamManager : Type 0 where
  pub streams : GoMap LiveStream

-- `OnRegister` and `OnUnregister`
pub data Hook : Type 0 where
  on_register : String → String → Hook
  on_unregister : String → Hook

-- `Register`, for a publisher with this key and node; `none` is the error for a key that is live.
unfoldable pub register : String → String → StreamManager → Option (StreamManager × List Hook)
register key node_id m = elim (lookup key m.streams) [
  | some _ ↦ none
  | none ↦
      some
        (record { streams = insert key (new_stream key) m.streams }, on_register key node_id ∷ [])
]

-- `Unregister`
unfoldable pub unregister : String → StreamManager → Pool → StreamManager × Pool × List Hook
unregister key m pool = elim (lookup key m.streams) [
  | none ↦ (m, pool, [])
  | some s ↦
      let (_, pool') = Fanout.close s pool in
      (record { streams = delete key m.streams }, pool', on_unregister key ∷ [])
]

-- `Get`
unfoldable pub get_stream : String → StreamManager → Option LiveStream
get_stream key m = lookup key m.streams

-- `All`
unfoldable pub all_streams : StreamManager → List LiveStream
all_streams m = values m.streams

-- `Subscribe`; `none` is the error for a key that is not live.
unfoldable pub subscribe : String → String → Subscriber → StreamManager → Option StreamManager
subscribe key id sub m = elim (lookup key m.streams) [
  | none ↦ none
  | some s ↦ some (record { streams = insert key (add_subscriber id sub s) m.streams })
]
