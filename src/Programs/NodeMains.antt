-- ===== src/Programs/NodeMains.antt =====
-- `main` of src/pump.cpp, src/nuzzle.cpp and src/engine.cpp: a node and the ports that it listens on.
-- `connect` gives the connection that the network makes to an address.
use firehose.Base.{
  ℕ, ◌%◌, ◌<◌, ◌≡◌, ◌↔◌, refl, sym, ap, ◌∙◌, List, [], ◌∷◌, ◌++◌, map, none, some, arith, length,
  u16_mod, append-nil, append_assoc,
}
use firehose.Api.{Bytes}
use firehose.Pump as PumpNode
use firehose.Pump.{Pump}
use firehose.Nuzzle as NuzzleNode
use firehose.Nuzzle.{Nuzzle}
use firehose.Engine as EngineNode
use firehose.Engine.{Engine}
use firehose.Programs.{Conversions, Run, usage, undefined, goes_on, Address, address_list}

-- The loops over the engines.
abbrev pub connect_pump : Pump → List ℕ → Pump
connect_pump p [] = p
connect_pump p (e ∷ es) = connect_pump (PumpNode.connect_to_engine p e) es

abbrev pub connect_nuzzle : Nuzzle → List ℕ → Nuzzle
connect_nuzzle n [] = n
connect_nuzzle n (e ∷ es) = connect_nuzzle (NuzzleNode.connect_to_engine n e) es

-- The port for the publishers, and the pump. The check of argc makes its default port unused.
unfoldable pub pump_main : Conversions → (Address → ℕ) → List Bytes → Run (ℕ × Pump)
pump_main l connect (_ ∷ node_id ∷ group_size ∷ publishers_port ∷ engines ∷ _) =
    elim (address_list l engines) [
      | none ↦ undefined
      | some found ↦ goes_on (
        l.atoi publishers_port,
        connect_pump (PumpNode.init (l.atol node_id) (l.atoi group_size % u16_mod))
            (map connect found),
      )
    ]
pump_main l connect arguments = usage

-- The port for the consumers, and the nuzzle.
unfoldable pub nuzzle_main : Conversions → (Address → ℕ) → List Bytes → Run (ℕ × Nuzzle)
nuzzle_main l connect (_ ∷ node_id ∷ group_size ∷ consumers_port ∷ engines ∷ _) =
    elim (address_list l engines) [
      | none ↦ undefined
      | some found ↦ goes_on (
        l.atoi consumers_port,
        connect_nuzzle (NuzzleNode.init (l.atol node_id) (l.atoi group_size % u16_mod))
            (map connect found),
      )
    ]
nuzzle_main l connect arguments = usage

abbrev pub default_engine_pump_port : ℕ
default_engine_pump_port = 12447

abbrev pub default_engine_engine_port : ℕ
default_engine_engine_port = 12448

abbrev pub default_engine_nuzzle_port : ℕ
default_engine_nuzzle_port = 12449

pub record Ports : Type 0 where
  pub pump_port : ℕ
  pub nuzzle_port : ℕ
  pub engine_port : ℕ

-- The ports of the arguments from the third on.
abbrev pub ports : Conversions → List Bytes → Ports
ports l [] = record {
  pump_port = default_engine_pump_port;
  nuzzle_port = default_engine_nuzzle_port;
  engine_port = default_engine_engine_port;
}
ports l (engines ∷ []) = record {
  pump_port = default_engine_pump_port;
  nuzzle_port = default_engine_nuzzle_port;
  engine_port = l.atoi engines;
}
ports l (engines ∷ pumps ∷ []) = record {
  pump_port = l.atoi pumps;
  nuzzle_port = default_engine_nuzzle_port;
  engine_port = l.atoi engines;
}
ports l (engines ∷ pumps ∷ nuzzles ∷ _) = record {
  pump_port = l.atoi pumps;
  nuzzle_port = l.atoi nuzzles;
  engine_port = l.atoi engines;
}

-- With one argument `argv[2]` is the null pointer that ends the arguments, and `atoi` reads from it.
unfoldable pub engine_main : Conversions → List Bytes → Run (Ports × Engine)
engine_main l [] = usage
engine_main l (_ ∷ []) = usage
engine_main l (_ ∷ node_id ∷ []) = undefined
engine_main l (_ ∷ node_id ∷ group_size ∷ rest) =
    goes_on (ports l rest, EngineNode.init (l.atol node_id) (l.atoi group_size % u16_mod))

connect_pump-connects :
    (p : Pump) (es : List ℕ)
    → connect_pump p es ≡ record p { engine_connections = p.engine_connections ++ es }
unfolding PumpNode.connect_to_engine
connect_pump-connects p [] =
    ap (λ es. record p { engine_connections = es }) (sym (append-nil p.engine_connections))
connect_pump-connects p (e ∷ es) =
    connect_pump-connects (PumpNode.connect_to_engine p e) es
    ∙ ap (λ es. record p { engine_connections = es })
        (append_assoc p.engine_connections (e ∷ []) es)

connect_nuzzle-connects :
    (n : Nuzzle) (es : List ℕ)
    → connect_nuzzle n es ≡ record n { engine_connections = n.engine_connections ++ es }
unfolding NuzzleNode.connect_to_engine
connect_nuzzle-connects n [] =
    ap (λ es. record n { engine_connections = es }) (sym (append-nil n.engine_connections))
connect_nuzzle-connects n (e ∷ es) =
    connect_nuzzle-connects (NuzzleNode.connect_to_engine n e) es
    ∙ ap (λ es. record n { engine_connections = es })
        (append_assoc n.engine_connections (e ∷ []) es)

-- A pump and a nuzzle that can read the addresses of their engines start with the node id, the group
-- size, reduced to 16 bits, and the port of their arguments, with nothing stored, no subscription and
-- the first global id 0, and with one connection for each address, in order.
nodes_start :
    (l : Conversions) (connect : Address → ℕ) (program node_id group_size port engines : Bytes)
    (more : List Bytes) (found : List Address)
    → address_list l engines ≡ some found
    → let arguments = program ∷ node_id ∷ group_size ∷ port ∷ engines ∷ more in
      let group = l.atoi group_size % u16_mod in
      let connections = map connect found in
      (pump_main l connect arguments
        ≡ goes_on (
          l.atoi port,
          record (PumpNode.init (l.atol node_id) group) { engine_connections = connections },
        ))
      × (nuzzle_main l connect arguments
          ≡ goes_on (
            l.atoi port,
            record (NuzzleNode.init (l.atol node_id) group) { engine_connections = connections },
          ))
unfolding pump_main nuzzle_main
nodes_start l connect program node_id group_size port engines more found read =
    let group = l.atoi group_size % u16_mod in
    let connections = map connect found in
    (
      rw (read, pump_main)
          (ap (λ (p : Pump). goes_on (l.atoi port, p))
            (connect_pump-connects (PumpNode.init (l.atol node_id) group) connections)),
      rw (read, nuzzle_main)
          (ap (λ (n : Nuzzle). goes_on (l.atoi port, n))
            (connect_nuzzle-connects (NuzzleNode.init (l.atol node_id) group) connections)),
    )

-- The engine program shows its usage exactly without an argument of its own, reads from a null pointer
-- exactly with one such argument, and goes on exactly with more.
engine_main_cases :
    (l : Conversions) (arguments : List Bytes)
    → ((engine_main l arguments ≡ usage) ↔ (length arguments < 2))
      × ((engine_main l arguments ≡ undefined) ↔ (length arguments ≡ 2))
      × (((p : Ports) × (e : Engine) × (engine_main l arguments ≡ goes_on (p, e)))
          ↔ (2 < length arguments))
unfolding engine_main
engine_main_cases l [] = (ground arith, ground arith, ground arith)
engine_main_cases l (a ∷ []) = (ground arith, ground arith, ground arith)
engine_main_cases l (a ∷ b ∷ []) = (ground arith, ground arith, ground arith)
engine_main_cases l (a ∷ b ∷ c ∷ rest) = (
  ground arith,
  ground arith,
  (λ _. omega arith, λ _. (ports l rest, EngineNode.init (l.atol b) (l.atoi c % u16_mod), refl)),
)
