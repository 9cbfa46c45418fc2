-- ===== src/Sgwu/PfcpServer/Answers.antt =====
-- internal/sgwu/pfcpserver/server.go: the answers of the server, and what several handlers do.
use Prim.Native.String.{◌++◌ as str_append}
use vectorcore_sgw.Common.{
  ℕ, String, Bool, true, false, not, ◌||◌, List, [], ◌∷◌, map, any, number_keys, text_keys,
  if◌then◌else◌, is_some,
}
use vectorcore_sgw.Common.Addr.{Addr, is_ip4, same_addr}
use vectorcore_sgw.Common.Maps.{lookup}
use vectorcore_sgw.Pfcp.Ie.{Element}
use vectorcore_sgw.Pfcp.Header.{Header, marshal_message}
use vectorcore_sgw.Sgwu.Session.{Far}
use vectorcore_sgw.Sgwu.PfcpServer.State.{
  Config, Source, Server, Output, reply, path_peer, remove_rules,
}

-- The headers of the server's answers.
abbrev pub node_header : ℕ → ℕ → Header
node_header message_type seq = record {
  version = 1;
  has_seid = false;
  message_type = message_type;
  len = 0;
  seid = 0;
  sequence_number = seq;
}

abbrev pub session_header : ℕ → ℕ → ℕ → Header
session_header message_type seid seq = record {
  version = 1;
  has_seid = true;
  message_type = message_type;
  len = 0;
  seid = seid;
  sequence_number = seq;
}

abbrev pub answer : Header → List Element → Output
answer h ies = reply (marshal_message h ies)

-- `"ipv4:" + addr.IP.String()`
abbrev pub source_key : Source → String
source_key src = str_append "ipv4:" src.ip

abbrev pub has_association : Source → Server → Bool
has_association src s = is_some (lookup (source_key src) s.peers)

-- `trackSessionPathPeers`: each IPv4 peer once. `seen` has those of the FARs before.
unfoldable pub path_peers : List Addr → List Far → List Output
path_peers seen [] = []
path_peers seen (f ∷ fs) =
    let skip = not (is_ip4 f.outer_ip) || any (same_addr f.outer_ip) seen in
    let rest = path_peers (if skip then seen else f.outer_ip ∷ seen) fs in
    if skip then rest else path_peer f.outer_ip ∷ rest

module _ (cfg : Config) where
  abbrev pub removals : List ℕ → List Output
  removals refs = if cfg.has_bpf then map remove_rules refs else []

  abbrev pub tracked : List Far → List Output
  tracked fars = if cfg.tracks_peers then path_peers [] fars else []
