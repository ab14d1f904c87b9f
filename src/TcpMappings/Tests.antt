-- ===== src/TcpMappings/Tests.antt =====
-- The TCP mappings at concrete inputs.
use navmesh_go.Base.{ℕ, ◌≡◌, ◌++◌, refl, true, false, [], ◌⊎◌, inl, inr}
use navmesh_go.Base.Int.{pos, negsuc}
use navmesh_go.Base.Text.{codes, trim_space}
use navmesh_go.Base.Map.{empty, get, put}
use navmesh_go.TcpMappings.{
  TcpMapping, SaveTcpMappingRequest, SaveError, port_exists, World, tcp_mapping_port_range,
  choose_port, Table, save,
}
use navmesh_go.TcpMappings.Ports.{IsChosen, choose_port-IsChosen}
use navmesh_go.TcpMappings.Unique.{IsUnique, save-IsUnique}

abbrev world : World
world = record {
  device_exists = λ guid. true;
  default_public_host = λ name port. name ++ codes ".tcpd.navfirst.com";
  new_guid = codes "g2";
  now = pos 9;
  ports_fail = false;
  check_fails = false;
  find_fails = false;
  save_fails = false;
}

abbrev request : ℕ → SaveTcpMappingRequest
request port = record {
  guid = [];
  device_guid = codes "d1";
  name = codes "ssh";
  public_host = [];
  public_port = port;
  target_host = [];
  target_port = 22;
  remark = [];
  status = 0;
}

abbrev row : TcpMapping
row = record {
  device_guid = codes "d1";
  name = codes "web";
  public_host = codes "web.tcpd.navfirst.com";
  public_port = 20000;
  target_host = codes "127.0.0.1";
  target_port = 80;
  remark = [];
  status = 1;
  create_time = pos 1;
  update_time = pos 1;
}

abbrev rows : Table
rows = put empty (codes "g1") row

taken_test :
    (save world (tcp_mapping_port_range (pos 20000) (pos 20001)) (request 20000) rows).1
    ≡ inl port_exists
unfolding save trim_space tcp_mapping_port_range put
taken_test = refl

-- A request for a disabled mapping, whose status is 0, gives an enabled one.
abbrev status_of : SaveError ⊎ TcpMapping → ℕ
status_of (inl e) = 0
status_of (inr saved) = saved.status

enabled_test :
    status_of (save world (tcp_mapping_port_range (pos 20000) (pos 20001)) (request 20000) empty).1
    ≡ 1
unfolding save trim_space tcp_mapping_port_range put empty
enabled_test = refl

chosen_test :
    choose_port world (tcp_mapping_port_range (pos 20000) (negsuc 4)) rows.entries (request 0)
    ≡ inr 20001
unfolding choose_port tcp_mapping_port_range put trim_space empty
chosen_test = refl

empty-IsUnique : IsUnique empty
unfolding get empty
empty-IsUnique port g h a b ga hb ea eb = absurd cc

abbrev one : Table
one = (save world (tcp_mapping_port_range (pos 20000) (pos 20001)) (request 20000) empty).0

one-IsUnique : IsUnique one
one-IsUnique =
    save-IsUnique world (tcp_mapping_port_range (pos 20000) (pos 20001)) (request 20000) empty
      empty-IsUnique

save-IsUnique_example :
    IsUnique (save world (tcp_mapping_port_range (pos 20000) (pos 20001)) (request 0) one).0
save-IsUnique_example =
    save-IsUnique world (tcp_mapping_port_range (pos 20000) (pos 20001)) (request 0) one
      one-IsUnique

choose_port-IsChosen_example :
    IsChosen world
      (tcp_mapping_port_range (pos 20000) (pos 20001))
      rows.entries
      (request 0)
      (choose_port world (tcp_mapping_port_range (pos 20000) (pos 20001)) rows.entries (request 0))
choose_port-IsChosen_example =
    choose_port-IsChosen world (pos 20000) (pos 20001) rows.entries (request 0) refl refl refl
