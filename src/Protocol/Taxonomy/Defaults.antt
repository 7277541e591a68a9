-- ===== src/Protocol/Taxonomy/Defaults.antt =====
-- What a viewer gets of the adapters that the server has by default.
use cam_server.Base.{
  ◌≡◌, refl, ap, false, ◌||◌, String, none, some, List, [], ◌∷◌, lookup, insert, delete, elem,
  arith, str_eq, eq_iff, if◌then◌else◌, ok,
}
use cam_server.Protocol.Taxonomy.{
  Registry, validate, register, register_all, add_adapter, int_less, less, insert_id, sort_ids,
  sort_classes, new_registry, default_registry, webrtc, hls, adapters_for_class, supported,
  first_supported, negotiate, negotiate_delivery,
}

default_registry_ok :
    (r : Registry) × (default_registry ≡ ok r)
    × (adapters_for_class "delivery" r ≡ webrtc ∷ hls ∷ [])
unfolding default_registry new_registry register_all register validate add_adapter sort_classes
    sort_ids insert_id less int_less adapters_for_class lookup insert delete
default_registry_ok = (record { by_id = _; ids_by_class = _; wire_by_class = _ }, refl, refl)

elem-supported :
    (p : String) (client : List String)
    → str_eq p "" ≡ false
    → elem p (supported client) ≡ elem p client
unfolding supported
elem-supported p [] h = refl
elem-supported p (q ∷ qs) h =
    ground (arith, h, elem-supported p qs h, eq_iff q p, eq_iff q "", eq_iff p "")

-- The default adapters make a registry, and under it a client gets WebRTC exactly if its list has "webrtc" or
-- "delivery.webrtc"; failing that HLS, exactly if its list has "hls" or "delivery.hls"; and otherwise none.
pub negotiate_delivery-default :
    (client : List String)
    → (r : Registry) × (default_registry ≡ ok r)
      × (negotiate_delivery client r ≡ (
          if elem "webrtc" client || elem "delivery.webrtc" client
          then some webrtc
          else if elem "hls" client || elem "delivery.hls" client
          then some hls
          else none))
unfolding negotiate_delivery negotiate first_supported
negotiate_delivery-default client =
    let (r, made, listed) = default_registry_ok in
    (
      r,
      made,
      ground (
        arith,
        ap (first_supported (supported client)) listed,
        elem-supported "webrtc" client refl,
        elem-supported "delivery.webrtc" client refl,
        elem-supported "hls" client refl,
        elem-supported "delivery.hls" client refl,
      ),
    )
