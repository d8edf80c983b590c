-- ===== src/Iputil/Search.antt =====
-- What FirstFreeHost returns.
use kube_overlay_operator.Base.{
  ℕ, zero, suc, Bool, true, false, ◌≡◌, refl, ◌⊎◌, inl, inr, Bool-cases,
}
use kube_overlay_operator.Base.Dict.{Dict}
use kube_overlay_operator.Iputil.{
  HostResult, host, failed, address_pool_exhausted, out_of_fuel, inc, is_allocated, search_from,
}
use kube_overlay_operator.Net.Bytes.{Ip, IpNet, contains_ip}
use kube_overlay_operator.Net.Text.{NetText}

-- `ip` after n increments.
abbrev pub inc_times : ℕ → Ip → Ip
inc_times zero ip = ip
inc_times (suc n) ip = inc_times n (inc ip)

module _ (net : NetText) (ipnet : IpNet) (allocated : Dict Bool) where
  -- The first n addresses from `ip` lie in the network and are allocated.
  abbrev pub Taken : ℕ → Ip → Type 0
  Taken zero ip = Unit
  Taken (suc n) ip =
      (contains_ip ipnet ip ≡ true)
      × (is_allocated allocated (net.ip_string ip) ≡ true)
      × Taken n (inc ip)

  -- `ip` is the first address from `start` that is not allocated, and it lies in the network.
  pub record IsFirstFree (start ip : Ip) : Type 0 where
    pub skipped : ℕ
    pub reached : ip ≡ inc_times skipped start
    pub taken : Taken skipped start
    pub inside : contains_ip ipnet ip ≡ true
    pub free : is_allocated allocated (net.ip_string ip) ≡ false

  -- The network ends before any address that is not allocated.
  pub record IsExhausted (start : Ip) : Type 0 where
    pub skipped : ℕ
    pub taken : Taken skipped start
    pub outside : contains_ip ipnet (inc_times skipped start) ≡ false

  -- What the loop has found, if it was not cut off.
  abbrev pub Finds : Ip → HostResult → Type 0
  Finds start (host s) = (ip : Ip) × (s ≡ net.ip_string ip) × IsFirstFree start ip
  Finds start (failed e) = (e ≡ out_of_fuel) ⊎ ((e ≡ address_pool_exhausted) × IsExhausted start)

  Finds-inc :
      (start : Ip) (r : HostResult)
      → contains_ip ipnet start ≡ true
      → is_allocated allocated (net.ip_string start) ≡ true
      → Finds (inc start) r
      → Finds start r
  Finds-inc start (host s) c t (ip, e, f) = (
    ip,
    e,
    record {
      skipped = suc f.skipped;
      reached = f.reached;
      taken = (c, t, f.taken);
      inside = f.inside;
      free = f.free;
    },
  )
  Finds-inc start (failed e) c t (inl cut) = inl cut
  Finds-inc start (failed e) c t (inr (over, x)) =
      inr (over, record { skipped = suc x.skipped; taken = (c, t, x.taken); outside = x.outside })

  pub search_from-Finds :
      (fuel : ℕ) (start : Ip) → Finds start (search_from net fuel ipnet allocated start)
  unfolding search_from
  search_from-Finds zero start = inl refl
  search_from-Finds (suc fuel) start = elim (Bool-cases (contains_ip ipnet start)) [
    | inr outside ↦ rw outside (inr (refl, record { skipped = 0; taken = tt; outside = outside }))
    | inl inside ↦ elim (Bool-cases (is_allocated allocated (net.ip_string start))) [
      | inl used ↦
          rw (inside, used) (Finds-inc start _ inside used (search_from-Finds fuel (inc start)))
      | inr free ↦
          rw (inside, free)
            (
              start,
              refl,
              record { skipped = 0; reached = refl; taken = tt; inside = inside; free = free },
            )
    ]
  ]
