-- ===== src/Discovery/Laws.antt =====
-- What holds of the backends that userspace/discovery/docker.go finds.

use mathlib.Core.Option.{some-injective}
use Prim.Native.String.{String}
use container_lb.Go.Dict.{lookup}
use container_lb.Base.{
  ℕ, suc, ◌≡◌, ap, refl, inl, inr, true, Bool-cases, Option, none, some, List, [], ◌∷◌,
}
use container_lb.Base.Lists.{get_elem?}
use container_lb.Go.Net.{Ip, HardwareAddr}
use container_lb.Manager.{Result, ok, err}
use container_lb.Pool.{Backend}
use container_lb.Pool.Rounds.{AreIpv4}
use container_lb.Discovery.{
  Container, Inspect, System, Text, find_host_veth, is_serving, address, with_veth, with_address,
  inspected, backend_of, append_to, backends_of, from_list, discover_backends,
}
use container_lb.Discovery.Sources.{
  IsHealthy, is_serving-IsHealthy, IsAddress, address-IsAddress, IsPort, port_of-IsPort,
}
use container_lb.Discovery.Veth.{IsHostVeth, find_host_veth-IsHostVeth}

abbrev items : Result (List Backend) → List Backend
items (ok bs) = bs
items (err e) = []

module _ {W N H : Type 0} (sys : System W N H) (text : Text) (target_port : ℕ) where
  -- The backend of one of the containers `cs`, with what the system told of it.
  pub record IsDiscovered (cs : List Container) (b : Backend) : Type 0 where
    pub container : Container
    pub place : ℕ
    pub at : get_elem? cs place ≡ some container
    pub inspect : Inspect
    pub told : (w : W) × ((sys.container_inspect container.id w).0 ≡ ok inspect)
    pub running : inspect.running ≡ true
    pub health : IsHealthy inspect.health
    pub address : IsAddress text inspect.networks b.ip b.mac
    pub port : IsPort text target_port (lookup "lb.port" container.labels) b.port
    pub id : b.id ≡ text.short_id container.id
    pub name : b.name ≡ text.trim_slash inspect.name
    pub pid : b.container_pid ≡ inspect.pid
    pub healthy : b.healthy ≡ true
    pub veth : IsHostVeth sys inspect.pid b.veth_name b.veth_idx

  abbrev pub AllDiscovered : List Container → List Backend → Type 0
  AllDiscovered cs [] = Unit {0}
  AllDiscovered cs (b ∷ bs) = IsDiscovered cs b × AllDiscovered cs bs

  -- Backends of the containers of one list that the Docker client gave.
  pub record AreDiscovered (bs : List Backend) : Type 0 where
    pub containers : List Container
    pub listed : (w : W) × ((sys.container_list w).0 ≡ ok containers)
    pub each : AllDiscovered containers bs

  IsDiscovered-later :
      (c : Container) (cs : List Container) (b : Backend)
      → IsDiscovered cs b
      → IsDiscovered (c ∷ cs) b
  IsDiscovered-later c cs b d = record {
    container = d.container;
    place = suc d.place;
    at = d.at;
    inspect = d.inspect;
    told = d.told;
    running = d.running;
    health = d.health;
    address = d.address;
    port = d.port;
    id = d.id;
    name = d.name;
    pid = d.pid;
    healthy = d.healthy;
    veth = d.veth;
  }

  AllDiscovered-later :
      (c : Container) (cs : List Container) (bs : List Backend)
      → AllDiscovered cs bs
      → AllDiscovered (c ∷ cs) bs
  AllDiscovered-later c cs [] h = tt
  AllDiscovered-later c cs (b ∷ bs) (h, hs) =
      (IsDiscovered-later c cs b h, AllDiscovered-later c cs bs hs)

  backend_of-IsDiscovered :
      (c : Container) (cs : List Container) (w : W) (b : Backend)
      → (backend_of text sys target_port c w).0 ≡ some b
      → IsDiscovered (c ∷ cs) b
  unfolding backend_of
  backend_of-IsDiscovered c cs w b h = inspection (sys.container_inspect c.id w) refl h
    where
      attached :
          (i : Inspect) (a : Ip × HardwareAddr) (r : Result (String × ℕ) × W)
          → (sys.container_inspect c.id w).0 ≡ ok i
          → (i.running ≡ true) × IsHealthy i.health
          → IsAddress text i.networks a.0 a.1
          → ((name : String) (n : ℕ) → r.0 ≡ ok (name, n) → IsHostVeth sys i.pid name n)
          → (with_veth text sys target_port c i a r).0 ≡ some b
          → IsDiscovered (c ∷ cs) b
      attached i a (err e, w') told up good veth h = absurd (cc h)
      attached i (ip, mac) (ok (name, n), w') told up good veth h =
          rw (← some-injective _ b h) (record {
            container = c;
            place = 0;
            at = refl;
            inspect = i;
            told = (w, told);
            running = up.0;
            health = up.1;
            address = good;
            port = port_of-IsPort text target_port c;
            id = refl;
            name = refl;
            pid = refl;
            healthy = refl;
            veth = veth name n refl;
          })

      addressed :
          (i : Inspect) (o : Option (Ip × HardwareAddr)) (w' : W)
          → (sys.container_inspect c.id w).0 ≡ ok i
          → (i.running ≡ true) × IsHealthy i.health
          → ((a : Ip × HardwareAddr) → o ≡ some a → IsAddress text i.networks a.0 a.1)
          → (with_address text sys target_port c i o w').0 ≡ some b
          → IsDiscovered (c ∷ cs) b
      addressed i none w' told up good h = absurd (cc h)
      addressed i (some a) w' told up good h =
          attached i a (find_host_veth sys i.pid w') told up (good a refl)
            (λ name n. find_host_veth-IsHostVeth sys i.pid w' name n) h

      inspection :
          (r : Result Inspect × W)
          → (sys.container_inspect c.id w).0 ≡ r.0
          → (inspected text sys target_port c r).0 ≡ some b
          → IsDiscovered (c ∷ cs) b
      inspection (err e, w') told h = absurd (cc h)
      inspection (ok i, w') told h = elim (Bool-cases (is_serving i)) [
        | inl up ↦
            addressed i (address text i.networks) w' told (is_serving-IsHealthy i up)
              (λ a. address-IsAddress text i.networks a) (rw up at h)
        | inr down ↦ absurd (cc (rw down at h))
      ]

  backends_of-AllDiscovered :
      (cs : List Container) (w : W) → AllDiscovered cs (backends_of text sys target_port cs w).0
  unfolding backends_of
  backends_of-AllDiscovered [] w = tt
  backends_of-AllDiscovered (c ∷ cs) w =
      appended (backend_of text sys target_port c w).0
        (backends_of text sys target_port cs (backend_of text sys target_port c w).1).0
        (λ b. backend_of-IsDiscovered c cs w b)
        (backends_of-AllDiscovered cs (backend_of text sys target_port c w).1)
    where
      appended :
          (o : Option Backend) (bs : List Backend)
          → ((b : Backend) → o ≡ some b → IsDiscovered (c ∷ cs) b)
          → AllDiscovered cs bs
          → AllDiscovered (c ∷ cs) (append_to text sys target_port o bs)
      appended none bs one rest = AllDiscovered-later c cs bs rest
      appended (some b) bs one rest = (one b refl, AllDiscovered-later c cs bs rest)

  -- Every backend that `DiscoverBackends` returns comes from a container of the Docker client's
  -- list that runs and whose health check, where it has one, says healthy or none. Its address is
  -- an IPv4 address, and its MAC address one of six bytes, of one network of the container; its
  -- port is that of the label, where the label can be read, and that of the watcher otherwise; and
  -- its interface is the one, of an index that is not 0, at the other end of a veth of the
  -- network namespace of the container's process.
  pub discover_backends-AreDiscovered :
      (w : W) (bs : List Backend)
      → (discover_backends text sys target_port w).0 ≡ ok bs
      → AreDiscovered bs
  unfolding discover_backends
  discover_backends-AreDiscovered w bs h = listing (sys.container_list w) refl h
    where
      listing :
          (r : Result (List Container) × W)
          → (sys.container_list w).0 ≡ r.0
          → (from_list text sys target_port r).0 ≡ ok bs
          → AreDiscovered bs
      listing (err e, w') listed h = absurd (cc h)
      listing (ok cs, w') listed h =
          rw (← ap items h) (record {
            containers = cs;
            listed = (w, listed);
            each = backends_of-AllDiscovered cs w';
          })

  AllDiscovered-AreIpv4 :
      (cs : List Container) (bs : List Backend) → AllDiscovered cs bs → AreIpv4 bs
  AllDiscovered-AreIpv4 cs [] h = tt
  AllDiscovered-AreIpv4 cs (b ∷ bs) h = (h.0.address.ipv4, AllDiscovered-AreIpv4 cs bs h.1)

  -- They can all be written into the maps.
  pub AreDiscovered-AreIpv4 : (bs : List Backend) → AreDiscovered bs → AreIpv4 bs
  AreDiscovered-AreIpv4 bs d = AllDiscovered-AreIpv4 d.containers bs d.each
