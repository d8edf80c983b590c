-- ===== src/PodController/WellFormed.antt =====
-- When the status of a network is well formed, and how the lists in it keep to that.
use kube_overlay_operator.Base.{
  String, false, not, ◌≡◌, refl, none, some, List, [], ◌∷◌, ◌++◌, map, ◌==◌, arith, if◌then◌else◌,
}
use mathlib.Core.List.{map-append}
use kube_overlay_operator.Base.Lists.{
  filter, any, contains, Distinct, Distinct-snoc, All, All-append, All-map,
}
use kube_overlay_operator.Base.Dict.{lookup}
use kube_overlay_operator.Api.{OverlayNetworkStatus, OverlayNetworkIpAllocation}

-- The pods of a list of allocations, and their addresses.
abbrev pub pod_names : List OverlayNetworkIpAllocation → List String
pod_names = map (λ a. a.pod_name)

abbrev pub ips : List OverlayNetworkIpAllocation → List String
ips = map (λ a. a.ip)

abbrev pub place : OverlayNetworkIpAllocation → String × (String × String)
place a = (a.pod_name, (a.ip, a.pod_ip))

-- A router's entry has the address and the pod address of the allocation of its pod.
abbrev pub IsBacked : List OverlayNetworkIpAllocation → OverlayNetworkIpAllocation → Type 0
IsBacked allocations r = lookup r.pod_name (map place allocations) ≡ some (r.ip, r.pod_ip)

-- A list of routers: each pod once, and with its allocation.
abbrev pub AreRouters : List OverlayNetworkIpAllocation → List OverlayNetworkIpAllocation → Type 0
AreRouters allocations routers = All (IsBacked allocations) routers × Distinct (pod_names routers)

-- Every pod has one allocation, every address one pod, and all routers have allocations.
pub record IsWellFormed (s : OverlayNetworkStatus) : Type 0 where
  pub one_per_pod : Distinct (pod_names s.allocations)
  pub one_per_ip : Distinct (ips s.allocations)
  pub routers_known : AreRouters s.allocations s.routers
  pub optional_known : All (λ e. AreRouters s.allocations e.1) s.optional_routers

-- The entries of the other pods.
abbrev pub rest_of : String → List OverlayNetworkIpAllocation → List OverlayNetworkIpAllocation
rest_of name xs = filter (λ n. not (n.pod_name == name)) xs

pub contains-pod_names :
    (name : String) (xs : List OverlayNetworkIpAllocation)
    → any (λ n. n.pod_name == name) xs ≡ contains (pod_names xs) name
contains-pod_names name [] = refl
contains-pod_names name (x ∷ xs) = ground (arith, contains-pod_names name xs)

module _ (f : OverlayNetworkIpAllocation → String) (name : String) where
  contains-rest_of :
      (v : String) (xs : List OverlayNetworkIpAllocation)
      → contains (map f xs) v ≡ false
      → contains (map f (rest_of name xs)) v ≡ false
  contains-rest_of v [] h = refl
  contains-rest_of v (x ∷ xs) h = ground (arith, contains-rest_of v xs)

  pub rest_of-Distinct :
      (xs : List OverlayNetworkIpAllocation)
      → Distinct (map f xs)
      → Distinct (map f (rest_of name xs))
  rest_of-Distinct [] d = tt
  rest_of-Distinct (x ∷ xs) (n, d) =
      ground (arith, rest_of-Distinct xs d, contains-rest_of (f x) xs n)

pub lookup-rest_of :
    (name j : String) (xs : List OverlayNetworkIpAllocation)
    → lookup j (map place (rest_of name xs)) ≡ (if name == j then none else lookup j (map place xs))
lookup-rest_of name j [] = ground arith
lookup-rest_of name j (x ∷ xs) = ground (arith, lookup-rest_of name j xs)

pub All-rest_of :
    (name : String) (as' xs : List OverlayNetworkIpAllocation)
    → All (IsBacked as') xs
    → All (IsBacked (rest_of name as')) (rest_of name xs)
All-rest_of name as' [] h = tt
All-rest_of name as' (x ∷ xs) h =
    ground (arith, lookup-rest_of name x.pod_name as', All-rest_of name as' xs h.1, h.0)

pub All-rest_of_same :
    (name : String) (as' xs : List OverlayNetworkIpAllocation)
    → All (IsBacked as') xs
    → All (IsBacked as') (rest_of name xs)
All-rest_of_same name as' [] h = tt
All-rest_of_same name as' (x ∷ xs) h = ground (arith, All-rest_of_same name as' xs h.1, h.0)

pub AreRouters-rest_of :
    (name : String) (as' xs : List OverlayNetworkIpAllocation)
    → AreRouters as' xs
    → AreRouters (rest_of name as') (rest_of name xs)
AreRouters-rest_of name as' xs (b, d) =
    (All-rest_of name as' xs b, rest_of-Distinct (λ n. n.pod_name) name xs d)

pub AreRouters-rest_of_same :
    (name : String) (as' xs : List OverlayNetworkIpAllocation)
    → AreRouters as' xs
    → AreRouters as' (rest_of name xs)
AreRouters-rest_of_same name as' xs (b, d) =
    (All-rest_of_same name as' xs b, rest_of-Distinct (λ n. n.pod_name) name xs d)

-- Allocations may grow under a list of routers.
pub AreRouters-mono :
    (as' bs xs : List OverlayNetworkIpAllocation)
    → ((j : String) (v : String × String)
        → lookup j (map place as') ≡ some v
        → lookup j (map place bs) ≡ some v)
    → AreRouters as' xs
    → AreRouters bs xs
AreRouters-mono as' bs xs grow (b, d) = (All-map xs (λ r h. grow r.pod_name _ h) b, d)

-- A backed entry of a new pod may be appended.
pub AreRouters-snoc :
    (as' xs : List OverlayNetworkIpAllocation) (a : OverlayNetworkIpAllocation)
    → AreRouters as' xs
    → IsBacked as' a
    → contains (pod_names xs) a.pod_name ≡ false
    → AreRouters as' (xs ++ a ∷ [])
AreRouters-snoc as' xs a (b, d) backed new = (
  All-append (IsBacked as') xs (a ∷ []) b (backed, tt),
  rw map-append (Distinct-snoc (pod_names xs) a.pod_name d new),
)
