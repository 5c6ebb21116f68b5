-- ===== src/Agent/Cmdu/Known.antt =====
-- agent/cmdu.c: the neighbours that the messages of the network leave on an interface.
use easymesh.Prelude.{
  ℕ, List, [], ◌∷◌, ◌++◌, ◌≡◌, refl, Bool, Bool-cases, inl, inr, true, false, Option, none, some,
  if◌then◌else◌, ◌∙◌, ◌==◌, arith, get_or,
}
use easymesh.Prelude.Run.{Run, Returns, returns, done, fault}
use easymesh.Prelude.{◌⊎◌}
use easymesh.Mbus.{same_name}
use easymesh.Mbus.Names.{same_name_sym}
use easymesh.Agent.{
  NetworkInterface, Neighbour, search_1905_nbr, add_1905_nbr, search_among, find_controller,
  find_controller_interface, found_on, sup_service_controller,
}
use easymesh.Agent.Neighbours.{search_among-append}
use mathlib.Core.List.{append_assoc}
use easymesh.Agent.Controller.{NoController}
use easymesh.Agent.Cmdu.{
  Wire, cmdu_handle, source_of, type_of, msg_topology_discovery, discovered, send_topology_response,
  send_ap_capa_report, send_topology_query, id_of, bytes, header, msg_topology_query,
  msg_ap_capability_query, heard, topology_response,
}

-- No address twice.
unfoldable pub Distinct1905 : List Neighbour → Type 0
Distinct1905 [] = Unit {0}
Distinct1905 (d ∷ ds) = (search_among d.al_addr ds ≡ none) × Distinct1905 ds

-- Each neighbour once, and not the device itself.
pub record Known (i : NetworkInterface) : Type 0 where
  pub distinct : Distinct1905 i.nbr_1905
  pub other : search_among i.al_addr i.nbr_1905 ≡ none

none_if :
    (b : Bool) (d : Neighbour) (r : Option Neighbour)
    → (if b then some d else r) ≡ none
    → (b ≡ false) × (r ≡ none)
none_if true d r e = absurd (clash e)
  where
    clash : some d ≡ none → ⊥
    clash e = cc
none_if false d r e = (refl, e)

Distinct1905-append :
    (ds : List Neighbour) (d : Neighbour)
    → search_among d.al_addr ds ≡ none
    → Distinct1905 ds
    → Distinct1905 (ds ++ d ∷ [])
unfolding Distinct1905 search_among
Distinct1905-append [] d fresh v = (refl, tt)
Distinct1905-append (c ∷ ds) d fresh (apart, v) =
    let (differs, rest) =
      none_if (same_name d.al_addr c.al_addr) c (search_among d.al_addr ds) fresh in
    (
      search_among-append c.al_addr ds d apart
          ∙ rw (same_name_sym d.al_addr c.al_addr differs) refl,
      Distinct1905-append ds d rest v,
    )

discovered-Known :
    (allocated : Bool) (source id : List ℕ) (w : Wire) (r : Option Neighbour)
    → search_among source w.interface.nbr_1905 ≡ r
    → same_name w.interface.al_addr source ≡ false
    → Known w.interface
    → Known (discovered allocated source id r w).interface
unfolding discovered add_1905_nbr send_topology_query
discovered-Known allocated source id w (some d) e apart k = k
discovered-Known false source id w none e apart k = k
discovered-Known true source id w none e apart k = record {
  distinct = Distinct1905-append w.interface.nbr_1905 _ e k.distinct;
  other = search_among-append w.interface.al_addr w.interface.nbr_1905 _ k.other ∙ rw apart refl;
}

-- It returns and this is so; without the iterator it may fault as well.
abbrev pub Keeps : Bool → Run Wire (Unit {0}) → Type 0
Keeps true r = Returns (λ _ g. Known g.interface) r
Keeps false r = (r ≡ fault) ⊎ Returns (λ _ g. Known g.interface) r

kept : (iterates : Bool) (w : Wire) → Known w.interface → Keeps iterates (done tt w)
kept true w k = returns k
kept false w k = inr (returns k)

Keeps-if :
    (iterates b c : Bool) (x y z : Run Wire (Unit {0}))
    → Keeps iterates x
    → Keeps iterates y
    → Keeps iterates z
    → Keeps iterates (if b then x else if c then y else z)
Keeps-if iterates true c x y z p q r = p
Keeps-if iterates false true x y z p q r = q
Keeps-if iterates false false x y z p q r = r

heard-Keeps :
    (iterates allocated : Bool) (source id : List ℕ) (w : Wire)
    → same_name w.interface.al_addr source ≡ false
    → Known w.interface
    → Keeps iterates (heard iterates allocated source id w)
unfolding heard search_1905_nbr
heard-Keeps true allocated source id w apart k =
    returns (
      discovered-Known allocated source id w (search_among source w.interface.nbr_1905) refl apart
        k)
heard-Keeps false allocated source id w apart k = inl refl

response-Keeps :
    (iterates : Bool) (dest id : List ℕ) (w : Wire)
    → Known w.interface
    → Keeps iterates (send_topology_response iterates dest id w)
unfolding send_topology_response topology_response
response-Keeps true dest id w k = returns k
response-Keeps false dest id w k = inl refl

-- Where no address is twice among the neighbours of an interface and its own is not among them,
-- cmdu_handle of any message returns and this is still so, whatever malloc answers for the memory
-- of a neighbour. Where malloc does not give an iterator, either cmdu_handle returns and this is
-- still so, or it reads through NULL.
pub cmdu_handle-Known :
    (iterates allocated : Bool) (raw : List ℕ) (w : Wire)
    → Known w.interface
    → Keeps iterates (cmdu_handle iterates allocated raw w)
unfolding cmdu_handle send_ap_capa_report
cmdu_handle-Known iterates allocated raw w k =
    let same = kept iterates w k in
    let source = source_of raw in
    let id = id_of raw in
    let query = type_of raw == msg_topology_query in
    let capability = type_of raw == msg_ap_capability_query in
    elim (Bool-cases (same_name w.interface.al_addr (source_of raw))) [
      | inl own ↦ elim (Bool-cases (type_of raw == msg_topology_discovery)) [
        | inl a ↦ rw (a, own) same
        | inr a ↦ rw (a, own) (Keeps-if iterates query capability _ _ _ same same same)
      ]
      | inr apart ↦ elim (Bool-cases (type_of raw == msg_topology_discovery)) [
        | inl a ↦ rw (a, apart) (heard-Keeps iterates allocated source id w apart k)
        | inr a ↦
            rw (a, apart)
              (Keeps-if iterates query capability _ _ _ (response-Keeps iterates source id w k)
                (kept iterates (send_ap_capa_report source id w) k) same)
      ]
    ]

controller-append :
    (ds : List Neighbour) (d : Neighbour)
    → NoController ds
    → d.sup_service ≡ 0
    → find_controller_interface (ds ++ d ∷ []) ≡ some d
unfolding NoController find_controller_interface
controller-append [] d none_there is =
    let found : (d.sup_service == sup_service_controller) ≡ true = ground (arith, is) in
    rw found refl
controller-append (c ∷ ds) d (not_one, none_there) is =
    let other : (c.sup_service == sup_service_controller) ≡ false = ground (arith, not_one) in
    rw other (controller-append ds d none_there is)

-- On an interface without a neighbour that is a controller, after a topology discovery from
-- another device that is not known yet, where malloc succeeds, cmdu_handle returns, that device
-- is the last neighbour, and a search for the controller that begins with the interface gives it.
-- One frame more has gone out, of which every byte is stated: a topology query with the source of
-- the discovery as its destination, the address of the interface as its source, and the id of the
-- discovery.
pub cmdu_handle-controller :
    (raw : List ℕ) (w : Wire) (is : List NetworkInterface)
    → type_of raw ≡ 0
    → same_name w.interface.al_addr (source_of raw) ≡ false
    → search_among (source_of raw) w.interface.nbr_1905 ≡ none
    → NoController w.interface.nbr_1905
    → (g : Wire) × (cmdu_handle true true raw w ≡ done tt g)
      × (find_controller (g.interface ∷ is)
          ≡ some (g.interface, record { al_addr = source_of raw; sup_service = 0 }))
      × (g.interface.nbr_1905
          ≡ w.interface.nbr_1905 ++ record { al_addr = source_of raw; sup_service = 0 } ∷ [])
      × (g.sent
          ≡ w.sent
            ++ bytes (
                get_or raw 6 0
                ∷ get_or raw 7 0
                ∷ get_or raw 8 0
                ∷ get_or raw 9 0
                ∷ get_or raw 10 0
                ∷ get_or raw 11 0
                ∷ (w.interface.addr
                    ++ (137
                        ∷ 58
                        ∷ 0
                        ∷ 0
                        ∷ 0
                        ∷ 2
                        ∷ get_or raw 18 0
                        ∷ get_or raw 19 0
                        ∷ 0
                        ∷ 128
                        ∷ 0
                        ∷ 0
                        ∷ 0
                        ∷ [])))
              ∷ [])
unfolding cmdu_handle heard search_1905_nbr discovered send_topology_query header add_1905_nbr
    find_controller found_on
cmdu_handle-controller raw w is type apart unknown none_there =
    let first =
      controller-append w.interface.nbr_1905 (record { al_addr = source_of raw; sup_service = 0 })
        none_there refl in
    (
      discovered true (source_of raw) (id_of raw) none w,
      rw (type, apart, unknown) refl,
      rw first refl,
      refl,
      simp append_assoc,
    )
