-- ===== src/Registration/Published.antt =====
-- RpcProvider::Run of src/rpcprovider.cc: the nodes that are there when the registration ends.
use mprpc_advanced_z.Base.{
  ℕ, ◌≡◌, ◌≢◌, refl, ap, subst, ◌∙◌, [], ◌∷◌, ◌++◌, some, Bool, true, false, ltb, length, arith,
  Bool-cases, Option-cases, inl, inr, ◌⊎◌,
}
use mprpc_advanced_z.Base.Bytes.{Bytes, codes, bytes_eq, bytes_beq, bytes_beq_iff}
use mprpc_advanced_z.Base.Maps.{Map, find}
use mprpc_advanced_z.Provider.{ServiceApi, ServiceInfo, ServiceMap}
use mprpc_advanced_z.Registration.{
  Exists, zok, znonode, other, ZooKeeper, Registered, done, exited, overflowed, ◌then_do◌, create,
  host_path, register_method, register_methods, register,
}

then_do-done :
    {Z : Type 0} (r : Registered Z) (f : Z → Registered Z) (z' : Z)
    → (r then_do f) ≡ done z'
    → (z : Z) × (r ≡ done z) × (f z ≡ done z')
then_do-done (done z) f z' e = (z, refl, e)
then_do-done exited f z' e = absurd (cc e)
then_do-done overflowed f z' e = absurd (cc e)

Exists-cases : (x : Exists) → (x ≡ zok) ⊎ ((x ≡ znonode) ⊎ (x ≡ other))
Exists-cases zok = inl refl
Exists-cases znonode = inr (inl refl)
Exists-cases other = inr (inr refl)

module _ (zk : ZooKeeper) where
  -- A node that is there stays, and the new one is there.
  record Grows (path : Bytes) (z z' : zk.Z) : Type 0 where
    kept : (q : Bytes) → zk.has q z ≡ true → zk.has q z' ≡ true
    made : zk.has path z' ≡ true

  -- ZooKeeper answers whether a node exists, without an error.
  abbrev pub Answering : Type 0
  Answering = (path : Bytes) (z : zk.Z) → zk.zoo_exists path z ≢ other

  create-Grows :
      (path : Bytes) (ephemeral : Bool) (z z' : zk.Z)
      → Answering
      → create zk path ephemeral z ≡ done z'
      → Grows path z z'
  unfolding create
  create-Grows path ephemeral z z' answers e = elim (Exists-cases (zk.zoo_exists path z)) [
    | inl x ↦
        let same : z ≡ z' = ground (arith, x) in
        subst (λ y. Grows path z y) same
          (record { kept = λ q h. h; made = zk.zoo_exists-has path z x })
    | inr (inl x) ↦ elim (Option-cases (zk.zoo_create path ephemeral z)) [
      | inl c ↦ absurd (ground (arith, x, c))
      | inr (y, c) ↦
          let same : y ≡ z' = ground (arith, x, c) in
          subst (λ w. Grows path z w) same
            record {
              kept = λ q h. zk.zoo_create-has path ephemeral z y c q ∙ ground (arith, h);
              made =
                  zk.zoo_create-has path ephemeral z y c path
                  ∙ rw ((bytes_beq_iff path path).1 refl) refl;
            }
    ]
    | inr (inr x) ↦ absurd (answers path z x)
  ]

  module _ (api : ServiceApi) (ip : Bytes) (port : ℕ) where
    -- The method's node is there, and below it the provider's.
    pub record HasMethod (service_path name : Bytes) (z : zk.Z) : Type 0 where
      pub method_node : zk.has (service_path ++ codes "/" ++ name) z ≡ true
      pub host_node : zk.has (host_path zk api ip port (service_path ++ codes "/" ++ name)) z ≡ true

    abbrev Keeps : zk.Z → zk.Z → Type 0
    Keeps z z' = (q : Bytes) → zk.has q z ≡ true → zk.has q z' ≡ true

    HasMethod-Keeps :
        (sp name : Bytes) (z z' : zk.Z) → HasMethod sp name z → Keeps z z' → HasMethod sp name z'
    HasMethod-Keeps sp name z z' h k = record {
      method_node = k (sp ++ codes "/" ++ name) h.method_node;
      host_node = k (host_path zk api ip port (sp ++ codes "/" ++ name)) h.host_node;
    }

    module _ (answers : Answering) where
      register_method-HasMethod :
          (sp name : Bytes) (z z' : zk.Z)
          → register_method zk api ip port sp name z ≡ done z'
          → HasMethod sp name z' × Keeps z z'
      unfolding register_method
      register_method-HasMethod sp name z z' e =
          let method_path = sp ++ codes "/" ++ name in
          let (y, first, then') = then_do-done (create zk method_path false z) _ z' e in
          let g = create-Grows method_path false z y answers first in
          let host = host_path zk api ip port method_path in
          elim (Bool-cases (ltb (length host) 128)) [
            | inl short ↦
                let h = create-Grows host true y z' answers (ground (arith, short, then')) in
                (
                  record { method_node = h.kept method_path g.made; host_node = h.made },
                  λ q k. h.kept q (g.kept q k),
                )
            | inr long ↦ absurd (ground (arith, long, then'))
          ]

      register_methods-HasMethod :
          (sp : Bytes) (ms : Map Bytes api.Method) (z z' : zk.Z)
          → register_methods zk api ip port sp ms z ≡ done z'
          → ((name : Bytes) (m : api.Method) → find name ms ≡ some m → HasMethod sp name z')
            × Keeps z z'
      unfolding register_methods find
      register_methods-HasMethod sp [] z z' e =
          let same : z ≡ z' = ground (arith, e) in
          ((λ name m f. absurd (cc f)), λ q k. subst (λ y. zk.has q y ≡ true) same k)
      register_methods-HasMethod sp ((n, method) ∷ ms) z z' e =
          let (y, first, then') = then_do-done (register_method zk api ip port sp n z) _ z' e in
          let (here, keep) = register_method-HasMethod sp n z y first in
          let (there, keep') = register_methods-HasMethod sp ms y z' then' in
          let kept = HasMethod-Keeps sp n y z' here keep' in
          (
            (λ name m f. elim (Bool-cases (bytes_beq n name)) [
              | inl b ↦ subst (λ k. HasMethod sp k z') ((bytes_beq_iff n name).0 b) kept
              | inr b ↦ there name m (ground (arith, b, f))
            ]),
            λ q k. keep' q (keep q k),
          )

      register-Keeps :
          (services : ServiceMap api) (z z' : zk.Z)
          → register zk api ip port services z ≡ done z'
          → Keeps z z'
      unfolding register
      register-Keeps [] z z' e q k =
          let same : z ≡ z' = ground (arith, e) in subst (λ y. zk.has q y ≡ true) same k
      register-Keeps ((n, i) ∷ services) z z' e q k =
          let sp = codes "/" ++ n in
          let (x, made, rest) = then_do-done (create zk sp false z) _ z' e in
          let (y, methods, then') =
            then_do-done (register_methods zk api ip port sp i.m_method_map x) _ z' rest in
          let g = create-Grows sp false z x answers made in
          let (there, keep) = register_methods-HasMethod sp i.m_method_map x y methods in
          register-Keeps services y z' then' q (keep q (g.kept q k))

      -- When the registration ends well, every method of every published service has its node, with
      -- the node of this provider, `ip:port`, below it, if ZooKeeper has answered each question whether
      -- a node exists.
      pub register-HasMethod :
          (services : ServiceMap api) (z z' : zk.Z)
          → register zk api ip port services z ≡ done z'
          → (service : Bytes) (info : ServiceInfo api) (name : Bytes) (method : api.Method)
          → find service services ≡ some info
          → find name info.m_method_map ≡ some method
          → HasMethod (codes "/" ++ service) name z'
      unfolding register find
      register-HasMethod [] z z' e service info name method f g = absurd (cc f)
      register-HasMethod ((n, i) ∷ services) z z' e service info name method f g =
          let sp = codes "/" ++ n in
          let (x, made, rest) = then_do-done (create zk sp false z) _ z' e in
          let (y, methods, then') =
            then_do-done (register_methods zk api ip port sp i.m_method_map x) _ z' rest in
          let (there, keep) = register_methods-HasMethod sp i.m_method_map x y methods in
          elim (Bool-cases (bytes_beq n service)) [
            | inl b ↦
                let same : i ≡ info = ground (arith, b, f) in
                let found = ap (λ (j : ServiceInfo api). find name j.m_method_map) same ∙ g in
                HasMethod-Keeps _ name y z'
                  (subst (λ k. HasMethod (codes "/" ++ k) name y) ((bytes_beq_iff n service).0 b)
                    (there name method found))
                  (register-Keeps services y z' then')
            | inr b ↦
                register-HasMethod services y z' then' service info name method
                  (ground (arith, b, f)) g
          ]
