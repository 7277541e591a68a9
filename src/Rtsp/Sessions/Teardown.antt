-- ===== src/Rtsp/Sessions/Teardown.antt =====
-- How a goroutine's deferred calls end its stream, and how late ones end another's.
use cam_server.Base.{
  ℕ, ◌≡◌, refl, true, false, String, none, some, [], ◌∷◌, lookup, insert, delete, arith, eq_iff,
  str_eq, lookup-delete_self,
}
use cam_server.Rtsp.Sessions.{
  dialing, serving, ended, World, start, stop, give_up, try_register, leave, remove,
  unregister_stream, starts, stops, gives_up, registers, leaves, removes, unregisters, act, run,
  idle_world,
}
use cam_server.Stream.Manager.{register, unregister, get_stream}
use cam_server.Stream.Pool.{Pool}

key_self : (key : String) → str_eq key key ≡ true
key_self key = (eq_iff key key).1 refl

-- In any world, a goroutine that serves a stream and returns leaves neither a session nor a stream of its key
-- when its deferred calls have run, and has ended.
pub run-teardown :
    (node_id : String) (g : ℕ) (w : World)
    → (w.ingests g).stage ≡ serving
    → let w' = run node_id (leaves g ∷ removes g ∷ unregisters g ∷ []) w in
      (lookup (w.ingests g).key w'.sessions ≡ none)
      × (get_stream (w.ingests g).key w'.manager ≡ none)
      × ((w'.ingests g).stage ≡ ended)
unfolding run act leave remove unregister_stream unregister get_stream
run-teardown node_id g w at =
    let key = (w.ingests g).key in
    (
      ground (arith, at, lookup-delete_self key w.sessions),
      ground (arith, at, lookup-delete_self key w.manager.streams),
      ground (arith, at),
    )

-- A goroutine that fails before `Register` can unregister a stream that is not its own: for every key there
-- is an order in which the next goroutine serves the key, holds its session and was not cancelled, while no
-- stream is registered, and every further `Start` of the key does nothing.
pub run-stuck :
    (node_id key : String) (pool : Pool)
    → let w =
        run node_id
          (starts key ∷ gives_up 0 ∷ removes 0 ∷ starts key ∷ registers 1 ∷ unregisters 0 ∷ [])
          (idle_world pool) in
      (lookup key w.sessions ≡ some 1)
      × (w.ingests 1 ≡ record { key = key; stage = serving; cancelled = false })
      × (get_stream key w.manager ≡ none)
      × (start key w ≡ w)
unfolding run act start give_up remove try_register unregister_stream register unregister get_stream
    lookup insert delete
run-stuck node_id key pool =
    let self = key_self key in
    (ground (arith, self), ground (arith, self), ground (arith, self), ground (arith, self))

-- A goroutine that was stopped gives up the session of the next one: for every key there is an order after
-- which two goroutines for it run, neither of them cancelled.
pub run-twice :
    (node_id key : String) (pool : Pool)
    → let w =
        run node_id
          (starts key
            ∷ registers 0
            ∷ stops key
            ∷ starts key
            ∷ leaves 0
            ∷ removes 0
            ∷ starts key
            ∷ [])
          (idle_world pool) in
      (w.ingests 1 ≡ record { key = key; stage = dialing; cancelled = false })
      × (w.ingests 2 ≡ record { key = key; stage = dialing; cancelled = false })
unfolding run act start stop leave remove try_register register lookup insert delete
run-twice node_id key pool = let self = key_self key in (ground (arith, self), ground (arith, self))
