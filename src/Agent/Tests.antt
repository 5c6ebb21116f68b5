-- ===== src/Agent/Tests.antt =====
-- agent/core.c and agent/main.c.
use easymesh.CfgMgr.Handle.{g_cfgmgr_user_name, _cfgmgr_handle_private_msg}
use easymesh.Mbus.{same_name}
use easymesh.CfgMgr.{cfg_mgr_init, CfgMgr}
use easymesh.Prelude.Run.{done}
use easymesh.Prelude.{List, ◌≡◌, ℕ, [], ◌∷◌, refl, none, some, arith, true, Option}
use easymesh.Agent.{
  Mesh, NetworkInterface, Neighbour, find_controller, find_controller_interface, found_on,
  search_1905_nbr, del_1905_nbr, add_1905_nbr, _mesh_handle_private_msg, g_mesh_user_name,
  search_among,
}
use easymesh.Agent.Neighbours.{search_1905_nbr-del_1905_nbr}
use easymesh.Agent.Cmdu.{Wire, cmdu_handle, bytes}
use easymesh.Agent.Cmdu.Known.{
  Known, Distinct1905, cmdu_handle-Known, cmdu_handle-controller, Keeps,
}
use easymesh.Agent.Controller.{NoController, Found, find_controller-Found}
use easymesh.Agent.Info.{Linked, answer-Backhaul}

abbrev agent : Neighbour
agent = record { al_addr = 2 ∷ 0 ∷ 0 ∷ 0 ∷ 0 ∷ 1 ∷ []; sup_service = 1 }

abbrev controller : Neighbour
controller = record { al_addr = 2 ∷ 0 ∷ 0 ∷ 0 ∷ 0 ∷ 2 ∷ []; sup_service = 0 }

abbrev ens32 : NetworkInterface
ens32 = record {
  ifname = 101 ∷ 110 ∷ 115 ∷ 51 ∷ 50 ∷ [];
  addr = 2 ∷ 0 ∷ 0 ∷ 0 ∷ 0 ∷ 3 ∷ [];
  al_addr = 2 ∷ 0 ∷ 0 ∷ 0 ∷ 0 ∷ 4 ∷ [];
  nbr_1905 = agent ∷ controller ∷ agent ∷ [];
}

abbrev mesh : Mesh
mesh = record { interfaces = ens32 ∷ []; frames = []; posts = [] }

abbrev manager : CfgMgr
manager = cfg_mgr_init true (λ _. 0)

search_1905_nbr-del_1905_nbr_example :
    (t : NetworkInterface) × (r : Option Neighbour) × (del_1905_nbr true agent.al_addr ens32
      ≡ done tt t)
    × (search_1905_nbr true agent.al_addr t ≡ done none t)
    × (search_1905_nbr true agent.al_addr (add_1905_nbr agent t)
        ≡ done (some agent) (add_1905_nbr agent t))
    × (search_1905_nbr true controller.al_addr ens32 ≡ done r ens32)
    × (search_1905_nbr true controller.al_addr t ≡ done r t)
unfolding same_name
search_1905_nbr-del_1905_nbr_example =
    search_1905_nbr-del_1905_nbr ens32 agent controller.al_addr refl

find_controller-Found_example : Found mesh.interfaces (find_controller mesh.interfaces)
find_controller-Found_example = find_controller-Found mesh.interfaces

answer-Backhaul_example :
    (text : List ℕ) × (t : CfgMgr) × (_mesh_handle_private_msg g_cfgmgr_user_name g_mesh_user_name
        (0 ∷ 0 ∷ [])
        mesh
      ≡ done tt (record mesh {
        posts =
            record { sender = g_mesh_user_name; receiver = g_cfgmgr_user_name; text = text } ∷ [];
      }))
    × (_cfgmgr_handle_private_msg g_mesh_user_name g_cfgmgr_user_name text manager ≡ done tt t)
    × Linked manager ens32 controller t
unfolding find_controller find_controller_interface found_on
answer-Backhaul_example =
    answer-Backhaul mesh ens32 controller manager refl refl refl refl
      (omega arith, (omega arith, (omega arith, (omega arith, (omega arith, tt))))) (omega arith)

-- A discovery of the controller that reaches an interface without neighbours.
abbrev discovery : List ℕ
discovery =
    1 ∷ 128 ∷ 194 ∷ 0 ∷ 0 ∷ 19 ∷ 2 ∷ 0 ∷ 0 ∷ 0 ∷ 0 ∷ 2 ∷ 137 ∷ 58 ∷ 0 ∷ 0 ∷ 0 ∷ 0 ∷ 0 ∷ 7 ∷ 0 ∷ 128
    ∷ []

abbrev lonely : Wire
lonely = record { interface = record ens32 { nbr_1905 = [] }; sent = [] }

lonely-Known : Known lonely.interface
unfolding Distinct1905 search_among
lonely-Known = record { distinct = tt; other = refl }

cmdu_handle-Known_example : Keeps true (cmdu_handle true true discovery lonely)
cmdu_handle-Known_example = cmdu_handle-Known true true discovery lonely lonely-Known

-- It has heard of another agent.
abbrev quiet_one : Wire
quiet_one = record { interface = record ens32 { nbr_1905 = agent ∷ [] }; sent = [] }

cmdu_handle-controller_example :
    (g : Wire) × (cmdu_handle true true discovery quiet_one ≡ done tt g)
    × (find_controller (g.interface ∷ [])
        ≡ some (g.interface, record { al_addr = controller.al_addr; sup_service = 0 }))
    × (g.interface.nbr_1905 ≡ agent ∷ record { al_addr = controller.al_addr; sup_service = 0 } ∷ [])
    × (g.sent
        ≡ bytes (
            2 ∷ 0 ∷ 0 ∷ 0 ∷ 0 ∷ 2 ∷ 2 ∷ 0 ∷ 0 ∷ 0 ∷ 0 ∷ 3 ∷ 137 ∷ 58 ∷ 0 ∷ 0 ∷ 0 ∷ 2 ∷ 0 ∷ 7 ∷ 0
            ∷ 128 ∷ 0 ∷ 0 ∷ 0 ∷ [])
          ∷ [])
unfolding same_name search_among NoController
cmdu_handle-controller_example =
    cmdu_handle-controller discovery quiet_one [] refl refl refl ((λ e. cc), tt)
