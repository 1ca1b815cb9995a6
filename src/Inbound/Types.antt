-- ===== src/Inbound/Types.antt =====
-- The data of pkgs/bigfred/remotes/inbound (registry.go, keys.go) and of contract's
-- RemoteSessionWire. Times are nanoseconds since an epoch, and 0 is Go's zero `time.Time`. A map that
-- is nil reads as an empty one.
use Prim.Native.String.{◌++◌}
use bigfred.Base.{
  ℕ, ℤ, Bool, false, String, Option, none, some, List, [], Map, if◌then◌else◌, ◌==◌, string_key,
}

-- net.UDPAddr
pub record UdpAddr : Type 0 where
  pub ip : List ℕ
  pub port : ℤ
  pub zone : String

-- `net.UDPAddr{}`
abbrev pub zero_addr : UdpAddr
zero_addr = record { ip = []; port = ℤ.pos 0; zone = "" }

-- What EndpointFromAddr calls: `IP.String`, `strconv.Itoa` and `net.JoinHostPort`.
pub record Net : Type 0 where
  pub ip_string : List ℕ → String
  pub itoa : ℤ → String
  pub join_host_port : String → String → String

pub record RemoteSessionWire : Type 0 where
  pub protocol : String
  pub user_id : ℕ
  pub user_login : String
  pub vehicle_ids : List String
  pub allowed_addrs : List ℕ
  pub allow_all_vehicles : Bool
  pub paired_at : ℤ
  pub last_seen_at : ℤ
  pub client_key : String
  pub handset_brake_secs : ℕ
  pub pairing_cv3 : ℤ
  pub pairing_cv4 : ℤ
  pub pairing_code : String

pub record Client : Type 0 where
  pub key : String
  pub protocol : String
  pub endpoint : String
  pub addr : UdpAddr
  pub last_seen : ℕ
  pub connected_at : ℕ
  pub idle_braked : Bool
  pub subscribed_locos : List ℕ
  pub last_active_loco : ℕ
  pub session : Option RemoteSessionWire
  pub synced_at : ℕ
  pub seen_dirty : Bool
  pub pending_seen : ℤ
  pub heartbeat_monitor : Bool

pub record ClientRegistry : Type 0 where
  pub clients : Map String Client
  pub subscribers : Map ℕ (Map String (Unit {0}))
  pub dirty_seen : Map String ℤ

-- `&Client{…}` of Touch and TouchByEndpoint.
abbrev pub new_client : String → String → String → UdpAddr → ℕ → Client
new_client key protocol endpoint addr now = record {
  key = key;
  protocol = protocol;
  endpoint = endpoint;
  addr = addr;
  last_seen = now;
  connected_at = now;
  idle_braked = false;
  subscribed_locos = [];
  last_active_loco = 0;
  session = none;
  synced_at = 0;
  seen_dirty = false;
  pending_seen = ℤ.pos 0;
  heartbeat_monitor = false;
}

-- ClientKey
abbrev pub client_key : String → String → String
client_key protocol endpoint = if protocol == "" then endpoint else protocol ++ (":" ++ endpoint)

-- EndpointFromAddr
abbrev pub endpoint_from_addr : Net → Option UdpAddr → Bool → String
endpoint_from_addr net none sticky = ""
endpoint_from_addr net (some addr) sticky =
    if sticky
    then net.ip_string addr.ip
    else net.join_host_port (net.ip_string addr.ip) (net.itoa addr.port)
