-- ===== src/Provider/Registry.antt =====
-- NotifyService of src/rpcprovider.cc: what the tables hold afterwards.
use mprpc_advanced_z.Base.{
  ◌≡◌, refl, List, [], ◌∷◌, Option, none, some, false, arith, ◌==◌, if◌then◌else◌,
}
use mprpc_advanced_z.Base.Bytes.{Bytes, bytes_eq, bytes_beq_iff}
use mprpc_advanced_z.Base.Maps.{Map, find, insert_new, find-insert_new, find-insert_new_free}
use mprpc_advanced_z.Provider.{ServiceApi, ServiceInfo, ServiceMap, add_methods, notify_service}

module _ (api : ServiceApi) where
  -- The first method of that name, in the order of the descriptor.
  unfoldable pub first_named : Bytes → List api.Method → Option api.Method
  first_named name [] = none
  first_named name (d ∷ ds) = if api.method_name d == name then some d else first_named name ds

  abbrev or_first : Option api.Method → Option api.Method → Option api.Method
  or_first none o = o
  or_first (some d) o = some d

  find-add_methods :
      (name : Bytes) (ds : List api.Method) (m : Map Bytes api.Method)
      → find name (add_methods api ds m) ≡ or_first (find name m) (first_named name ds)
  unfolding add_methods first_named
  find-add_methods name [] m = ground arith
  find-add_methods name (d ∷ ds) m = ground (
    arith,
    find-add_methods name ds (insert_new (api.method_name d) d m),
    find-insert_new (api.method_name d) name d m,
    bytes_beq_iff (api.method_name d) name,
  )

  -- After NotifyService the service's name, if it was free, leads to the service, with the first
  -- method of each name that its descriptor lists; every other name leads where it led.
  pub notify_service_correct :
      (service : api.Service) (services : ServiceMap api)
      → find (api.service_name service) services ≡ none
      → ((info : ServiceInfo api) × (find
              (api.service_name service)
              (notify_service api service services)
            ≡ some info)
          × (info.m_service ≡ service)
          × ((name : Bytes) → find name info.m_method_map ≡ first_named name (api.methods service)))
        × ((other : Bytes)
            → (other == api.service_name service) ≡ false
            → find other (notify_service api service services) ≡ find other services)
  unfolding notify_service
  notify_service_correct service services free =
      let name = api.service_name service in
      let info : ServiceInfo api = record {
        m_service = service;
        m_method_map = add_methods api (api.methods service) [];
      } in
      (
        (
          info,
          ground (arith, find-insert_new_free name name info services, bytes_beq_iff name name),
          refl,
          λ n. unfold find in find-add_methods n (api.methods service) [],
        ),
        λ other ne. ground (
          arith,
          find-insert_new_free name other info services,
          bytes_beq_iff name other,
          bytes_beq_iff other name,
        ),
      )
