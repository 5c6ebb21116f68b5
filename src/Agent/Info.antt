-- ===== src/Agent/Info.antt =====
-- agent/main.c and cfg_mgr/cfg_mgr.c: the question for the controller and its answer.
use easymesh.CfgMgr.{
  CfgMgr, Radio, ConfigStatus, unconfigured, backhaul_ready, send_m1, wait_m2, configured, rearm,
}
use easymesh.CfgMgr.Handle.{
  cfgmgr_handle_priv_msg_from_mesh, with_backhaul, _cfgmgr_handle_private_msg, interface_name,
  all_ready, g_cfgmgr_user_name, ready,
}
use easymesh.Prelude.Run.{done}
use mathlib.Core.Path.{subst}
use easymesh.Prelude.{
  List, ◌≡◌, ℕ, [], ◌∷◌, ◌++◌, refl, length, ◌≤◌, take, drop, ◌-◌, zero, suc, some, arith,
  length-append, take_of_le, false, ap, ltb, ◌∙◌, drop-add, ◌≢◌,
}
use easymesh.Mbus.{c_string, Name, same_name}
use easymesh.Mbus.BusMsg.Message.{IsString, c_string-string}
use easymesh.Agent.{
  ifname_field, zeros, _mesh_handle_private_msg, controller_info, answer, NetworkInterface, Mesh,
  Neighbour, find_controller, g_mesh_user_name,
}

take-prefix : {A : Type 0} (xs ys : List A) → take (length xs) (xs ++ ys) ≡ xs
take-prefix [] ys = refl
take-prefix (x ∷ xs) ys = rw (take-prefix xs ys) refl

drop-prefix : {A : Type 0} (xs ys : List A) → drop (length xs) (xs ++ ys) ≡ ys
drop-prefix [] ys = refl
drop-prefix (x ∷ xs) ys = drop-prefix xs ys

-- A field of six bytes in front of others.
address : (xs ys : List ℕ) → length xs ≡ 6 → (take 6 (xs ++ ys) ≡ xs) × (drop 6 (xs ++ ys) ≡ ys)
address xs ys six = (
  subst (λ n. take n (xs ++ ys) ≡ xs) six (take-prefix xs ys),
  subst (λ n. drop n (xs ++ ys) ≡ ys) six (drop-prefix xs ys),
)

length-zeros : (n : ℕ) → length (zeros n) ≡ n
length-zeros zero = refl
length-zeros (suc n) = omega (arith, length-zeros n)

field_name :
    (name : Name)
    → IsString name
    → length name ≤ 15
    → (c_string (ifname_field name) ≡ some name) × (length (ifname_field name) ≡ 16)
unfolding ifname_field
field_name name s short =
    let whole : take 15 name ≡ name = take_of_le 15 name short in
    let pad : 16 - length name ≡ suc (15 - length name) = omega (arith, short) in
    (
      rw (whole, pad) (c_string-string name (zeros (15 - length name)) s),
      rw whole (
          omega (
            arith,
            length-append name (zeros (16 - length name)),
            length-zeros (16 - length name),
            short,
          )),
    )

-- What a manager makes of the answer.
told :
    (i : NetworkInterface) (d : Neighbour) (c : CfgMgr)
    → length d.al_addr ≡ 6
    → length i.al_addr ≡ 6
    → length i.addr ≡ 6
    → IsString i.ifname
    → length i.ifname ≤ 15
    → cfgmgr_handle_priv_msg_from_mesh (controller_info i d) c
      ≡ done tt (
          all_ready (record c {
            backhaul = record {
              al_addr = i.al_addr;
              if_addr = i.addr;
              ifname = i.ifname;
              dest = d.al_addr;
            };
          }))
unfolding cfgmgr_handle_priv_msg_from_mesh controller_info with_backhaul interface_name
told i d c six_d six_al six_if string short =
    let (named, sixteen) = field_name i.ifname string short in
    let field = ifname_field i.ifname in
    let (dest, after_dest) = address d.al_addr (i.al_addr ++ (i.addr ++ field)) six_d in
    let (al, after_al) = address i.al_addr (i.addr ++ field) six_al in
    let (addr, after_addr) = address i.addr field six_if in
    let info = d.al_addr ++ (i.al_addr ++ (i.addr ++ field)) in
    let size : length info ≡ 34 = omega (
      arith,
      length-append d.al_addr (i.al_addr ++ (i.addr ++ field)),
      length-append i.al_addr (i.addr ++ field),
      length-append i.addr field,
      six_d,
      six_al,
      six_if,
      sixteen,
    ) in
    let all : length (1 ∷ 0 ∷ info) ≡ 36 = omega (arith, size) in
    let enough : ltb (length (1 ∷ 0 ∷ info)) 2 ≡ false = ground (arith, all) in
    let fits : ltb (length info) 34 ≡ false = ground (arith, size) in
    let twelve : drop 12 info ≡ i.addr ++ field =
      drop-add 6 6 info ∙ ap (λ (bs : List ℕ). drop 6 bs) after_dest ∙ after_al in
    let eighteen : drop 18 info ≡ field =
      drop-add 12 6 info ∙ ap (λ (bs : List ℕ). drop 6 bs) twelve ∙ after_addr in
    let name : take 15 i.ifname ≡ i.ifname = take_of_le 15 i.ifname short in
    rw (enough, fits, eighteen, named, dest, after_dest, al, twelve, addr, name) refl

-- What becomes of a radio: one that is configured stays as it is, another one is ready.
pub data ReadyAfter (r t : Radio) : Type 0 where
  keeps : r.conf_state ≡ configured → t ≡ r → ReadyAfter r t
  readies :
      r.conf_state ≢ configured
      → t ≡ record { auto_conf_band = r.auto_conf_band; conf_state = backhaul_ready }
      → ReadyAfter r t

ready-ReadyAfter :
    (band : ℕ) (c : ConfigStatus)
    → ReadyAfter
        (record { auto_conf_band = band; conf_state = c })
        (ready (record { auto_conf_band = band; conf_state = c }))
ready-ReadyAfter band unconfigured = readies (λ e. cc) refl
ready-ReadyAfter band backhaul_ready = readies (λ e. cc) refl
ready-ReadyAfter band send_m1 = readies (λ e. cc) refl
ready-ReadyAfter band wait_m2 = readies (λ e. cc) refl
ready-ReadyAfter band configured = keeps refl refl

-- What a manager makes of the way to a controller.
pub record Linked (c : CfgMgr) (i : NetworkInterface) (d : Neighbour) (t : CfgMgr) : Type 0 where
  pub dest : t.backhaul.dest ≡ d.al_addr
  pub al_addr : t.backhaul.al_addr ≡ i.al_addr
  pub if_addr : t.backhaul.if_addr ≡ i.addr
  pub ifname : t.backhaul.ifname ≡ i.ifname
  pub low : ReadyAfter c.radio_24g t.radio_24g
  pub high : ReadyAfter c.radio_5g t.radio_5g
  pub actions : t.actions ≡ c.actions ++ rearm 10 ∷ []
  pub msgid : t.msgid ≡ c.msgid
  pub m2buf : t.m2buf ≡ c.m2buf

-- Where find_controller gives an interface and a neighbour whose addresses have six bytes, and
-- the name of the interface has at most 15 bytes and no 0, the agent answers a request of the
-- configuration manager with one private message to it. The manager's handler on exactly that
-- message returns: the way to the controller is the addresses of the neighbour and of the
-- interface and its name, a radio that is configured stays as it is, another one becomes
-- BACKHAUL_READY, the timer is set to 10 ms, and the rest is as before.
pub answer-Backhaul :
    (s : Mesh) (i : NetworkInterface) (d : Neighbour) (c : CfgMgr)
    → find_controller s.interfaces ≡ some (i, d)
    → length d.al_addr ≡ 6
    → length i.al_addr ≡ 6
    → length i.addr ≡ 6
    → IsString i.ifname
    → length i.ifname ≤ 15
    → (text : List ℕ) × (t : CfgMgr) × (_mesh_handle_private_msg g_cfgmgr_user_name g_mesh_user_name
          (0 ∷ 0 ∷ [])
          s
        ≡ done tt (record s {
          posts =
              s.posts
              ++ record { sender = g_mesh_user_name; receiver = g_cfgmgr_user_name; text = text }
                ∷ [];
        }))
      × (_cfgmgr_handle_private_msg g_mesh_user_name g_cfgmgr_user_name text c ≡ done tt t)
      × Linked c i d t
unfolding _mesh_handle_private_msg answer _cfgmgr_handle_private_msg same_name
answer-Backhaul s i d c found six_d six_al six_if string short = (
  controller_info i d,
  _,
  rw found refl,
  told i d c six_d six_al six_if string short,
  record {
    dest = refl;
    al_addr = refl;
    if_addr = refl;
    ifname = refl;
    low = ready-ReadyAfter c.radio_24g.auto_conf_band c.radio_24g.conf_state;
    high = ready-ReadyAfter c.radio_5g.auto_conf_band c.radio_5g.conf_state;
    actions = refl;
    msgid = refl;
    m2buf = refl;
  },
)
