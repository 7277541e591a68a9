-- ===== src/Stream/Manager/Registry.antt =====
-- What the registry answers after its operations.
use cam_server.Base.{
  ◌≡◌, ◌≢◌, String, [], ◌∷◌, none, some, insert, lookup-insert, lookup-insert_self, lookup-delete,
  lookup-delete_self, eq_iff, arith,
}
use cam_server.Stream.Fanout.{new_stream, add_subscriber}
use cam_server.Stream.Manager.{
  StreamManager, on_register, on_unregister, register, unregister, get_stream, subscribe,
}
use cam_server.Stream.Pool.{Pool}
use cam_server.Subscriber.Defs.{Subscriber}

-- Two managers agree on every key but one.
abbrev pub SameBut : String → StreamManager → StreamManager → Type 0
SameBut key m n = (other : String) → other ≢ key → get_stream other m ≡ get_stream other n

-- A key that is free can be registered: `Get` then finds a fresh stream under it that takes a
-- subscriber, and a second `Register` fails. `Unregister` frees the key again and starts the hook, so that
-- `Get` and `Subscribe` fail. Neither touches another key.
pub unregister-register :
    (key node_id id : String) (sub : Subscriber) (m : StreamManager) (pool : Pool)
    → get_stream key m ≡ none
    → (m' : StreamManager) × (register key node_id m ≡ some (m', on_register key node_id ∷ []))
      × (get_stream key m' ≡ some (new_stream key))
      × (register key node_id m' ≡ none)
      × SameBut key m' m
      × ((m2 : StreamManager) × (subscribe key id sub m' ≡ some m2)
          × (get_stream key m2 ≡ some (add_subscriber id sub (new_stream key)))
          × SameBut key m2 m)
      × (get_stream key (unregister key m' pool).0 ≡ none)
      × (subscribe key id sub (unregister key m' pool).0 ≡ none)
      × ((unregister key m' pool).2 ≡ on_unregister key ∷ [])
      × SameBut key (unregister key m' pool).0 m
unfolding register unregister get_stream subscribe
unregister-register key node_id id sub m pool free =
    let fresh = new_stream key in
    let m' : StreamManager = record { streams = insert key fresh m.streams } in
    let joined = add_subscriber id sub fresh in
    let there = lookup-insert_self key fresh m.streams in
    let gone = lookup-delete_self key m'.streams in
    (
      m',
      ground (arith, free),
      there,
      ground (arith, there),
      λ other apart.
          ground (arith, apart, eq_iff key other, lookup-insert key other fresh m.streams),
      (
        record { streams = insert key joined m'.streams },
        ground (arith, there),
        lookup-insert_self key joined m'.streams,
        λ other apart. ground (
          arith,
          apart,
          eq_iff key other,
          lookup-insert key other fresh m.streams,
          lookup-insert key other joined m'.streams,
        ),
      ),
      ground (arith, there, gone),
      ground (arith, there, gone),
      ground (arith, there),
      λ other apart. ground (
        arith,
        there,
        apart,
        eq_iff key other,
        lookup-insert key other fresh m.streams,
        lookup-delete key other m'.streams,
      ),
    )
