-- ===== src/Access/Tests.antt =====
-- The access policies at concrete inputs.
use navmesh_go.Base.{◌≡◌, refl, true, false, some, [], ◌∷◌, ◌==◌, keep}
use navmesh_go.Base.Int.{pos}
use navmesh_go.Base.Text.{codes, eq_text, trim_space, to_lower, member}
use navmesh_go.Domain.{Device, PortMapping, AccessPolicy}
use navmesh_go.Routes.{route_allows_http}
use navmesh_go.Access.{SaveAccessPolicyRequest, is_allowed}
use navmesh_go.Access.Saved.{IsSaved}
use navmesh_go.Access.Cache.{route_allows_http-is_allowed}

abbrev device : Device
device = record {
  guid = codes "d1";
  device_type = codes "box";
  client_version = codes "1.0.0";
  os = codes "linux";
  arch = codes "amd64";
  group_guid = codes "g1";
  status = 2;
}

abbrev mapping : PortMapping
mapping = record {
  guid = codes "m1";
  device_guid = codes "d1";
  name = codes "web";
  public_host = codes "a.example";
  target_host = codes "127.0.0.1";
  target_port = pos 80;
  protocol = codes "http";
  is_custom_domain = false;
  status = 1;
}

abbrev policy : AccessPolicy
policy = record {
  guid = codes "p1";
  name = codes "no web";
  scope = codes "group";
  target_id = codes "g1";
  allow_ssh = true;
  allow_http = false;
  allow_tcp = true;
  status = 1;
}

policy-IsSaved : IsSaved policy
unfolding to_lower trim_space
policy-IsSaved = record { scope = refl; target = refl; named = λ e. refl }

route_allows_http-is_allowed_example :
    route_allows_http device mapping (keep (λ p. p.status == 1) (policy ∷ []))
    ≡ is_allowed
        (λ guid. some device)
        (λ q. some (keep q (policy ∷ [])))
        (codes "d1")
        (codes "m1")
        (codes "http")
unfolding trim_space
route_allows_http-is_allowed_example =
    route_allows_http-is_allowed (policy ∷ []) (λ guid. some device)
      (λ q. some (keep q (policy ∷ []))) device mapping (policy-IsSaved, tt) (λ q. refl) refl refl
      refl refl refl

denied_test :
    is_allowed
      (λ guid. some device)
      (λ q. some (keep q (policy ∷ [])))
      (codes "d1")
      (codes "m1")
      (codes "http")
    ≡ false
unfolding is_allowed keep eq_text member trim_space to_lower
denied_test = refl

abbrev asked : SaveAccessPolicyRequest
asked = record {
  guid = [];
  name = codes "no web";
  scope = codes " Group ";
  target_id = codes " g1 ";
  allow_ssh = true;
  allow_http = false;
  allow_tcp = true;
  status = 0;
}
