-- ===== src/Container/Kept.antt =====
-- What the calls of start-up leave as it is: the triples of code that keeps a claim about the world.
use brain.Base.{ℕ, ◌+◌, ◌≤◌, ◌≡◌, refl, String, some, Bool, true, false, if◌then◌else◌}
use brain.Base.Fueled.{Fueled, ◌>>=◌, pure, throw, lift, await, modify, matched}
use brain.Base.Fueled.Triples.{Done, Total, Total-bind, Total-matched, Total-if, Total-weaken}
use brain.Base.Io.{Io}
use brain.Base.Result.{Result, ok, err}
use brain.Container.Model.{ManagedContainerScope}
use brain.Container.Port.{ContainerId, ContainerPort, Host}

-- The code ends, and keeps the claim whether it returns a value or an error.
abbrev pub Keeps : {W E A : Type 0} → (W → Type 0) → Fueled W E A → Type 0
Keeps Inv m = Total Inv (λ _. Inv) (λ _. Inv) m

kept-pair :
    {W E A : Type 0} (Inv : W → Type 0) (r : Result E A × W)
    → Inv r.1
    → Done (λ _. Inv) (λ _. Inv) (some r)
kept-pair Inv (ok a, w) h = h
kept-pair Inv (err e, w) h = h

module _ {W E A : Type 0} {Inv : W → Type 0} where
  pub Keeps-pure : (a : A) → Keeps {E = E} Inv (pure a)
  unfolding pure
  Keeps-pure a = record { at = λ w h. h }

  pub Keeps-throw : (e : E) → Keeps {A = A} Inv (throw e)
  unfolding throw
  Keeps-throw e = record { at = λ w h. h }

  pub Keeps-lift : (r : Result E A) → Keeps Inv (lift r)
  unfolding lift
  Keeps-lift r = record { at = λ w h. kept-pair Inv (r, w) h }

  pub Keeps-await : (m : Io W E A) → ((w : W) → Inv w → Inv (m w).1) → Keeps Inv (await m)
  unfolding await
  Keeps-await m h = record { at = λ w j. kept-pair Inv (m w) (h w j) }

  pub Keeps-modify :
      (f : W → A × W) → ((w : W) → Inv w → Inv (f w).1) → Keeps {E = E} Inv (modify f)
  unfolding modify
  Keeps-modify f h = record { at = h }

  pub Keeps-if :
      (b : Bool) (m k : Fueled W E A)
      → (b ≡ true → Keeps Inv m)
      → (b ≡ false → Keeps Inv k)
      → Keeps Inv (if b then m else k)
  Keeps-if b m k f g = Total-if Inv (λ _. Inv) (λ _. Inv) b m k f g

-- A stronger claim before.
pub Keeps-from :
    {W E A : Type 0} {Inv : W → Type 0} (P : W → Type 0) (m : Fueled W E A)
    → ((w : W) → P w → Inv w)
    → Keeps Inv m
    → Total P (λ _. Inv) (λ _. Inv) m
Keeps-from P m before h = Total-weaken _ P _ _ _ _ m before (λ a w j. j) (λ e w j. j) h

learned-pair :
    {W E A : Type 0} (Inv : W → Type 0) (Q : A → Type 0) (r : Result E A × W)
    → Inv r.1
    → ((a : A) → r.0 ≡ ok a → Q a)
    → Done (λ a w. Inv w × Q a) (λ _. Inv) (some r)
learned-pair Inv Q (ok a, w) h k = (h, k a refl)
learned-pair Inv Q (err e, w) h k = h

await-learned :
    {W E A : Type 0} (Inv : W → Type 0) (Q : A → Type 0) (m : Io W E A)
    → ((w : W) → Inv w → Inv (m w).1)
    → ((w : W) (a : A) → Inv w → (m w).0 ≡ ok a → Q a)
    → Total Inv (λ a w. Inv w × Q a) (λ _. Inv) (await m)
unfolding await
await-learned Inv Q m kept says = record {
  at = λ w j. learned-pair Inv Q (m w) (kept w j) (λ a e. says w a j e);
}

module _ {W E A B : Type 0} {Inv : W → Type 0} where
  pub Keeps-bind :
      (m : Fueled W E A) (f : A → Fueled W E B)
      → Keeps Inv m
      → ((a : A) → Keeps Inv (f a))
      → Keeps Inv (m >>= f)
  Keeps-bind m f = Total-bind Inv (λ _. Inv) (λ _. Inv) (λ _. Inv) m f

  pub Keeps-matched :
      (m : Io W E A) (f : Result E A → Fueled W E B)
      → ((w : W) → Inv w → Inv (m w).1)
      → ((r : Result E A) → Keeps Inv (f r))
      → Keeps Inv (matched m f)
  Keeps-matched m f h each =
      Total-matched Inv (λ _. Inv) (λ _. Inv) (λ _. Inv) (λ _. Inv) m f (Keeps-await m h)
        (λ a. each (ok a)) (λ e. each (err e))

  -- A first step that keeps a stronger claim.
  pub Keeps-then :
      (P : W → Type 0) (m : Fueled W E A) (f : A → Fueled W E B)
      → ((w : W) → P w → Inv w)
      → Keeps P m
      → ((a : A) → Total P (λ _. Inv) (λ _. Inv) (f a))
      → Total P (λ _. Inv) (λ _. Inv) (m >>= f)
  Keeps-then P m f before first rest =
      Total-bind P (λ _. P) (λ _. Inv) (λ _. Inv) m f
        (Total-weaken P P (λ _. P) (λ _. P) (λ _. P) (λ _. Inv) m (λ w p. p) (λ a w p. p)
          (λ e. before) first)
        rest

  -- The rest may use what a call says of the world.
  pub Keeps-learned :
      (Q : A → Type 0) (m : Io W E A) (f : A → Fueled W E B)
      → ((w : W) → Inv w → Inv (m w).1)
      → ((w : W) (a : A) → Inv w → (m w).0 ≡ ok a → Q a)
      → ((a : A) → Q a → Keeps Inv (f a))
      → Keeps Inv (await m >>= f)
  Keeps-learned Q m f kept says rest =
      Total-bind Inv (λ a w. Inv w × Q a) _ _ _ _ (await-learned Inv Q m kept says)
        λ a. record { at = λ w p. (rest a p.1).at w p.0 }

pub ruleset keeps_rules = (
  Keeps-pure, Keeps-throw, Keeps-lift, Keeps-await, Keeps-modify, Keeps-if, Keeps-bind,
  Keeps-matched,
)

-- The calls that look at containers, images and networks, or prepare them, keep the claim `Inv`.
pub record Kept {W : Type 0} (port : ContainerPort W) (host : Host W) (Inv : W → Type 0)
    : Type 0 where
  pub image_exists : (image : String) (w : W) → Inv w → Inv (port.image_exists image w).1
  pub pull_image : (image : String) (w : W) → Inv w → Inv (port.pull_image image w).1
  pub exists : (id : ContainerId) (w : W) → Inv w → Inv (port.exists id w).1
  pub is_running : (id : ContainerId) (w : W) → Inv w → Inv (port.is_running id w).1
  pub logs_tail : (id : ContainerId) (n : ℕ) (w : W) → Inv w → Inv (port.logs_tail id n w).1
  pub ensure_network :
      (name : String) (internal : Bool) (w : W)
      → Inv w
      → Inv (port.ensure_network name internal w).1
  pub get_container_ip : (id : ContainerId) (w : W) → Inv w → Inv (port.get_container_ip id w).1
  pub list_managed_containers :
      (scope : ManagedContainerScope) (w : W) → Inv w → Inv (port.list_managed_containers scope w).1
  pub to_socket_addrs :
      (name : String) (n : ℕ) (w : W) → Inv w → Inv (host.to_socket_addrs name n w).1
  pub connect_timeout : (addr : String) (w : W) → Inv w → Inv (host.connect_timeout addr w).1

-- The clock does not go back, and a sleep is as long as it says.
pub record IsClock {W : Type 0} (port : ContainerPort W) (host : Host W) : Type 0 where
  pub goes_on : (t : ℕ) → Kept port host (λ w. t ≤ host.now w)
  pub sleeps : (d : ℕ) (w : W) → host.now w + d ≤ host.now (host.sleep d w)

module _ {W : Type 0} {port : ContainerPort W} {host : Host W} {Inv L : W → Type 0} where
  -- Two claims are kept together.
  pub Kept-both : Kept port host Inv → Kept port host L → Kept port host (λ w. Inv w × L w)
  Kept-both a b = record {
    image_exists = λ i w h. (a.image_exists i w h.0, b.image_exists i w h.1);
    pull_image = λ i w h. (a.pull_image i w h.0, b.pull_image i w h.1);
    exists = λ i w h. (a.exists i w h.0, b.exists i w h.1);
    is_running = λ i w h. (a.is_running i w h.0, b.is_running i w h.1);
    logs_tail = λ i n w h. (a.logs_tail i n w h.0, b.logs_tail i n w h.1);
    ensure_network = λ i n w h. (a.ensure_network i n w h.0, b.ensure_network i n w h.1);
    get_container_ip = λ i w h. (a.get_container_ip i w h.0, b.get_container_ip i w h.1);
    list_managed_containers =
        λ s w h. (a.list_managed_containers s w h.0, b.list_managed_containers s w h.1);
    to_socket_addrs = λ i n w h. (a.to_socket_addrs i n w h.0, b.to_socket_addrs i n w h.1);
    connect_timeout = λ i w h. (a.connect_timeout i w h.0, b.connect_timeout i w h.1);
  }

-- The claim that says nothing.
pub always : {W : Type 0} {port : ContainerPort W} {host : Host W} → Kept port host (λ _. Unit {0})
always = record {
  image_exists = λ i w h. tt;
  pull_image = λ i w h. tt;
  exists = λ i w h. tt;
  is_running = λ i w h. tt;
  logs_tail = λ i n w h. tt;
  ensure_network = λ i n w h. tt;
  get_container_ip = λ i w h. tt;
  list_managed_containers = λ s w h. tt;
  to_socket_addrs = λ i n w h. tt;
  connect_timeout = λ i w h. tt;
}
