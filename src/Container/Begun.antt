-- ===== src/Container/Begun.antt =====
-- What a start that succeeds has done before it waits for the container.
use brain.Base.{
  ◌≡◌, refl, String, Option, none, some, true, false, ◌⊎◌, inl, inr, Bool-cases, if◌then◌else◌,
}
use brain.Base.Fueled.{pure, lift, matched}
use brain.Base.Fueled.Inversion.{
  Ended, bind-ok, matched-ok, matched-throw, throw-ok, pure-ok, lift-ok, await-ok,
}
use brain.Base.Optional.{is_some}
use brain.Base.Result.{Result, ok, err}
use brain.Container.Ensure.{
  StartupProbeSettings, fail_startup, verify_startup, strategy_discovers, ensure_image,
  discovered_ip, discover_ip, start_container, ensure,
}
use brain.Container.Error.{ContainerError}
use brain.Container.Model.{
  ContainerConfig, ContainerNetworkIsolationStrategy, discover_container_ip, publish_to_loopback,
}
use brain.Container.Port.{NetworkPreparation, ContainerId, ContainerPort, Host}

module _ {W : Type 0} (port : ContainerPort W) where
  -- The image is there, at once or after it has been pulled.
  abbrev pub HasImage : String → W → W → Type 0
  HasImage image w v =
      (port.image_exists image w ≡ (ok true, v))
      ⊎ ((x : W) × ((y : W) × ((port.image_exists image w ≡ (ok false, x))
              × (port.pull_image image x ≡ (ok tt, y))
              × (port.image_exists image y ≡ (ok true, v)))))

  -- An isolated container needs the support of the runtime.
  abbrev pub IsSupported : Option ContainerNetworkIsolationStrategy → ContainerConfig → Type 0
  IsSupported none config = Unit
  IsSupported (some strategy) config = port.validate_internal_network_support config ≡ ok tt

  -- The address that the runtime reports, where the strategy asks for it.
  abbrev pub HasAddress :
      Option ContainerNetworkIsolationStrategy → ContainerId → Option String → W → W → Type 0
  HasAddress (some discover_container_ip) id container_ip w v =
      (reported : String) × ((container_ip ≡ some reported)
        × (port.get_container_ip id w ≡ (ok (some reported), v)))
  HasAddress (some publish_to_loopback) id container_ip w v = (container_ip ≡ none) × (w ≡ v)
  HasAddress none id container_ip w v = (container_ip ≡ none) × (w ≡ v)

  -- The calls of a start, each in the world that the one before it has left.
  pub record IsBegun (id : ContainerId) (config : ContainerConfig) (container_ip : Option String)
      (w : W) : Type 0 where
    pub imaged : W
    pub named : W
    pub networked : W
    pub running : W
    pub addressed : W
    pub preparation : NetworkPreparation
    pub image : HasImage config.image w imaged
    pub free : port.exists config.name imaged ≡ (ok false, named)
    pub supported : IsSupported config.isolation_strategy config
    pub network :
        port.ensure_network config.network_name (is_some config.isolation_strategy) named
        ≡ (ok preparation, networked)
    pub run : port.run config networked ≡ (ok id, running)
    pub address : HasAddress config.isolation_strategy id container_ip running addressed

  module _ (host : Host W) (settings : StartupProbeSettings) (config : ContainerConfig) where
    pub fails :
        {A : Type 0} (id : ContainerId) (text : String) (w : W) (a : A) (v : W)
        → Ended (fail_startup port host settings {A = A} id text) w a v
        → ⊥
    unfolding fail_startup
    fails id text w a v h = matched-throw _ _ w a v h

    ensure_image-HasImage :
        (w : W) (a : Unit) (v : W)
        → Ended (ensure_image port host settings config) w a v
        → HasImage config.image w v
    unfolding ensure_image
    ensure_image-HasImage w a v h =
        let (there, (x, (asked, h1))) = bind-ok _ _ w a v h in
        elim (Bool-cases there) [
          | inl yes_there ↦
              let (_, here) = pure-ok tt x a v (rw yes_there at h1) in
              inl (rw (← here) (await-ok _ w true x (rw yes_there at asked)))
          | inr missing ↦
              let (_, (y, (got, h2))) = bind-ok _ _ x a v (rw missing at h1) in
              let (pulled, (z, (again, h3))) = bind-ok _ _ y a v h2 in
              elim (Bool-cases pulled) [
                | inl found ↦
                    let (_, here) = pure-ok tt z a v (rw found at h3) in
                    inr (
                      x,
                      (
                        y,
                        (
                          await-ok _ w false x (rw missing at asked),
                          await-ok _ x tt y got,
                          rw (← here) (await-ok _ y true z (rw found at again)),
                        ),
                      ),
                    )
                | inr lost ↦ absurd (throw-ok _ z a v (rw lost at h3))
              ]
        ]

    discovered_ip-some :
        (id : ContainerId) (r : Result ContainerError (Option String)) (w : W) (ip : Option String)
        (v : W)
        → Ended (discovered_ip port host settings id config r) w ip v
        → (reported : String) × ((ip ≡ some reported) × (r ≡ ok (some reported)) × (w ≡ v))
    discovered_ip-some id (ok (some reported)) w ip v h =
        let (e, here) = pure-ok (some reported) w ip v h in (reported, (rw e refl, refl, here))
    discovered_ip-some id (ok none) w ip v h = absurd (fails id _ w ip v h)
    discovered_ip-some id (err error) w ip v h = absurd (fails id _ w ip v h)

    address-HasAddress :
        (strategy : Option ContainerNetworkIsolationStrategy) (id : ContainerId) (w : W)
        (ip : Option String) (v : W)
        → Ended
            (if strategy_discovers strategy
              then matched (port.get_container_ip id) (discovered_ip port host settings id config)
              else pure none)
            w
            ip
            v
        → HasAddress strategy id ip w v
    address-HasAddress none id w ip v h =
        let (found, here) = pure-ok none w ip v h in (rw found refl, here)
    address-HasAddress (some publish_to_loopback) id w ip v h =
        let (found, here) = pure-ok none w ip v h in (rw found refl, here)
    address-HasAddress (some discover_container_ip) id w ip v h =
        let (r, (u, (asked, h1))) = matched-ok (port.get_container_ip id) _ w ip v h in
        let (reported, (found, answered, here)) = discovered_ip-some id r u ip v h1 in
        (reported, (found, rw (← answered, ← here) asked))

    discover_ip-HasAddress :
        (id : ContainerId) (w : W) (ip : Option String) (v : W)
        → Ended (discover_ip port host settings id config) w ip v
        → HasAddress config.isolation_strategy id ip w v
    unfolding discover_ip
    discover_ip-HasAddress id w ip v h = address-HasAddress config.isolation_strategy id w ip v h

    support-IsSupported :
        (strategy : Option ContainerNetworkIsolationStrategy) (w : W) (a : Unit) (v : W)
        → Ended
            (if is_some strategy
              then lift (port.validate_internal_network_support config)
              else pure tt)
            w
            a
            v
        → IsSupported strategy config × (w ≡ v)
    support-IsSupported none w a v h = let (_, here) = pure-ok tt w a v h in (tt, here)
    support-IsSupported (some strategy) w a v h = lift-ok _ w a v h

    -- The steps of a start after the name was found free.
    start_container-IsBegun :
        (w u y : W) (started : ContainerId × Option String) (v : W)
        → HasImage config.image w u
        → port.exists config.name u ≡ (ok false, y)
        → Ended (start_container port host settings config) y started v
        → IsBegun started.0 config started.1 w
    unfolding start_container
    start_container-IsBegun w u y started v image free h =
        let (a, (y1, (checked, h1))) = bind-ok _ _ y started v h in
        let (supported, stays) = support-IsSupported config.isolation_strategy y a y1 checked in
        let (preparation, (y2, (made, h2))) = bind-ok _ _ y1 started v h1 in
        let (id, (y3, (ran, h3))) = bind-ok _ _ y2 started v h2 in
        let (ip, (y4, (found, h4))) = bind-ok _ _ y3 started v h3 in
        let (same, _) = pure-ok (id, ip) y4 started v h4 in
        rw (← same) (record {
          imaged = u;
          named = y;
          networked = y2;
          running = y3;
          addressed = y4;
          preparation = preparation;
          image = image;
          free = free;
          supported = supported;
          network = rw stays (await-ok _ y1 preparation y2 made);
          run = await-ok _ y2 id y3 ran;
          address = discover_ip-HasAddress id y3 ip y4 found;
        })

    returned :
        (found started : ContainerId × Option String) (w u x v : W)
        → IsBegun found.0 config found.1 w
        → Ended (verify_startup port host settings found.0 config found.1) u tt x
        → Ended {E = ContainerError} (pure found) x started v
        → IsBegun started.0 config started.1 w
          × Ended (verify_startup port host settings started.0 config started.1) u tt v
    returned found started w u x v begun verified ended =
        let (same, here) = pure-ok found x started v ended in rw (← same, ← here) (begun, verified)

    pub ensure-IsBegun :
        (w : W) (started : ContainerId × Option String) (v : W)
        → Ended (ensure port host settings config) w started v
        → IsBegun started.0 config started.1 w
          × ((u : W) × Ended (verify_startup port host settings started.0 config started.1) u tt v)
    unfolding ensure
    ensure-IsBegun w started v h =
        let (a, (w1, (imaged, h1))) = bind-ok _ _ w started v h in
        let (taken, (w2, (asked, h2))) = bind-ok _ _ w1 started v h1 in
        elim (Bool-cases taken) [
          | inl there ↦ absurd (throw-ok _ w2 started v (rw there at h2))
          | inr free ↦
              let (found, (w3, (ran, h3))) = bind-ok _ _ w2 started v (rw free at h2) in
              let (b, (w4, (verified, h4))) = bind-ok _ _ w3 started v h3 in
              let begun =
                start_container-IsBegun w w1 w2 found w3 (ensure_image-HasImage w a w1 imaged)
                  (await-ok _ w1 false w2 (rw free at asked)) ran in
              let (started_is, waited) = returned found started w w3 w4 v begun verified h4 in
              (started_is, (w3, waited))
        ]
