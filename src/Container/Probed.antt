-- ===== src/Container/Probed.antt =====
-- What it means that the ports of a container accept connections, and that the probe of
-- crates/core/src/application/ensure_container.rs finds that they do.
use brain.Base.{
  ℕ, ◌≡◌, refl, String, Option, none, some, Bool, true, false, List, [], ◌∷◌, ◌⊎◌, inl, inr,
}
use brain.Container.Ensure.{branch, resolved, target, any_connects, tcp_port_ready, ports_ready}
use brain.Container.Model.{PortMapping}
use brain.Container.Port.{Host}

-- A test that leads to `true` on both ways.
branch-true :
    {W : Type 0} (f g : W → Bool × W) (r : Bool × W) (v : W)
    → branch f g r ≡ (true, v)
    → (u : W) × (((r ≡ (true, u)) × (f u ≡ (true, v))) ⊎ ((r ≡ (false, u)) × (g u ≡ (true, v))))
branch-true f g (true, u) v h = (u, inl (refl, h))
branch-true f g (false, u) v h = (u, inr (refl, h))

resolved-true :
    {W : Type 0} (found : List String → W → Bool × W) (r : Option (List String) × W) (v : W)
    → resolved (λ u. (false, u)) found r ≡ (true, v)
    → (addrs : List String) × ((u : W) × ((r ≡ (some addrs, u)) × (found addrs u ≡ (true, v))))
resolved-true found (none, u) v h = cc
resolved-true found (some addrs, u) v h = (addrs, (u, (refl, h)))

module _ {W : Type 0} (host : Host W) where
  -- An address accepts a connection, after those before it have refused theirs.
  abbrev pub Accepts : List String → W → W → Type 0
  Accepts [] w v = ⊥
  Accepts (addr ∷ addrs) w v =
      (host.connect_timeout addr w ≡ (true, v))
      ⊎ ((u : W) × ((host.connect_timeout addr w ≡ (false, u)) × Accepts addrs u v))

  -- The name is resolved and one of its addresses accepts a connection at the port.
  abbrev pub Listens : String → ℕ → W → W → Type 0
  Listens name port w v =
      (addrs : List String) × ((u : W) × ((host.to_socket_addrs name port w ≡ (some addrs, u))
          × Accepts addrs u v))

  -- Every mapping, in their order: at the container's own address and port where there is one, at the
  -- address and the port of the host otherwise.
  abbrev pub AllListen : Option String → List PortMapping → W → W → Type 0
  AllListen probe_host [] w v = w ≡ v
  AllListen (some container_ip) (m ∷ mappings) w v =
      (u : W) × (Listens container_ip m.container_port w u
        × AllListen (some container_ip) mappings u v)
  AllListen none (m ∷ mappings) w v =
      (u : W) × (Listens m.host_address m.host_port w u × AllListen none mappings u v)

  any_connects-Accepts :
      (addrs : List String) (w v : W) → any_connects host addrs w ≡ (true, v) → Accepts addrs w v
  unfolding any_connects
  any_connects-Accepts [] w v h = cc
  any_connects-Accepts (addr ∷ addrs) w v h =
      let (u, way) =
        branch-true (λ x. (true, x)) (any_connects host addrs) (host.connect_timeout addr w) v h in
      elim way [
        | inl (e, same) ↦ let here : u ≡ v = cc in inl (rw (← here) e)
        | inr (e, rest) ↦ inr (u, (e, any_connects-Accepts addrs u v rest))
      ]

  tcp_port_ready-Listens :
      (name : String) (port : ℕ) (w v : W)
      → tcp_port_ready host name port w ≡ (true, v)
      → Listens name port w v
  unfolding tcp_port_ready
  tcp_port_ready-Listens name port w v h =
      let (addrs, (u, (e, found))) =
        resolved-true (any_connects host) (host.to_socket_addrs name port w) v h in
      (addrs, (u, (e, any_connects-Accepts addrs u v found)))

  step :
      (m : PortMapping) (mappings : List PortMapping) (probe_host : Option String) (w v : W)
      → ports_ready host (m ∷ mappings) probe_host w ≡ (true, v)
      → (u : W) × (Listens (target probe_host m).0 (target probe_host m).1 w u
          × (ports_ready host mappings probe_host u ≡ (true, v)))
  unfolding ports_ready
  step m mappings probe_host w v h =
      let (u, way) =
        branch-true (ports_ready host mappings probe_host) (λ x. (false, x))
          (tcp_port_ready host (target probe_host m).0 (target probe_host m).1 w) v h in
      elim way [
        | inl (e, rest) ↦ (u, (tcp_port_ready-Listens _ _ w u e, rest))
        | inr (e, refused) ↦ absurd (cc)
      ]

  pub ports_ready-AllListen :
      (mappings : List PortMapping) (probe_host : Option String) (w v : W)
      → ports_ready host mappings probe_host w ≡ (true, v)
      → AllListen probe_host mappings w v
  unfolding ports_ready
  ports_ready-AllListen [] probe_host w v h = cc
  ports_ready-AllListen (m ∷ mappings) (some container_ip) w v h =
      let (u, (listens, rest)) = step m mappings (some container_ip) w v h in
      (u, (listens, ports_ready-AllListen mappings (some container_ip) u v rest))
  ports_ready-AllListen (m ∷ mappings) none w v h =
      let (u, (listens, rest)) = step m mappings none w v h in
      (u, (listens, ports_ready-AllListen mappings none u v rest))
