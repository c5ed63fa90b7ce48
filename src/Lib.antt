-- ===== src/Lib.antt =====
-- The core of jkr, a proxy that filters the output of commands, and of the mesh and vault that
-- come with it.
--
-- A command's output runs line by line through crates/jkr/src/stream.rs: each line is normalised,
-- given to the filter plugin of crates/jkr-filter, counted, and printed within a token budget,
-- while crates/jkr/src/tee.rs keeps a capped transcript of the raw lines. The mesh lets agents
-- exchange messages: crates/jkr-mesh signs invites, attestations and hellos, and
-- crates/jkr-server/src/broker.rs enrols members and routes their frames. The vault writes an
-- audit log, crates/jkr/src/host/vault/audit.rs. crates/jkr-sandbox runs commands, collects what
-- they touch and gives a verdict; crates/jkr-agent is the loop between a model and its tools,
-- whose output goes through the filter; crates/jkr-session-recorder keeps a scrubbed preview of
-- each command. crates/jkr/src/host registers plugins by their capabilities and sends each line
-- through their chain.
--
-- Prelude: shared names, lists, strings as lists of code points with their length in UTF-8 bytes,
-- decimal numbers, and wrap-around of 32 and 64 bits.
-- Filter: Rule, Compiled and Compile are the data and the compilation of
-- crates/jkr-filter/src/rules.rs, Apply and its children the arms of CompiledRule::apply, Plugin
-- is crates/jkr-filter/src/lib.rs and v2.rs. The regex crate is the parameter RegexApi, its
-- documented behaviour RegexLaws; the case tables of Unicode are CaseApi. Coalesce is about
-- compile_group. Its loop is on fuel, one round for each rule, and each round takes at least one
-- rule.
-- Stream: Signature is crates/jkr/src/signature.rs; Ansi, Normalize and Pipeline are strip_ansi,
-- normalize_line and run_pipeline_direct of stream.rs, Tee is append_raw_line of tee.rs. Lines
-- come as a list in which a missing line is a read error; environment variables are arguments.
-- Mesh: Crypto is identity.rs over the parameter CryptoApi, which stands for k256, sha3 and hex;
-- Attestation, Hello, Invite and Payment are attestation.rs, frames.rs, invite.rs and payment.rs.
-- Broker: State is BrokerState with its maps as association lists, Join is handle_join, Session
-- is run_ws_session cut into events, so that sessions interleave.
-- Audit: the log, its lines, its hash chain and its tip file; serde_json and sha2 are the
-- parameter JsonApi.
-- Vault: Seal is seal.rs, Codec age_codec.rs, Spaces the KvImpl and FsImpl of storage.rs, and
-- Vault mod.rs of crates/jkr/src/host/vault over its store in memory; the cipher, the codec of
-- older files and HKDF are the parameter CodecApi, what is relied on CodecLaws. Stored is about
-- reads after writes.
-- Sandbox: Policy, Trace, Verdict and Collector are policy.rs, capture/trace.rs,
-- capture/verdict.rs and capture/mod.rs of crates/jkr-sandbox/src, Tracee and Tracer are
-- capture/linux_ptrace.rs: what the tracer reads of a stopped process is an input of a step, and
-- each report of waitpid is a step.
-- Agent: Message, Tools and Loop are provider.rs, events.rs, tool.rs and loop_.rs of
-- crates/jkr-agent/src. The provider and the tools are the parameter AgentApi; the loop recurs on
-- the rounds that remain, max_steps at first.
-- Recorder: the plugin of crates/jkr-session-recorder/src/lib.rs, Scrub is scrub.rs, Shapes
-- describes lines that show a secret, and Storage storage.rs over the files of the vault; a step
-- that panics has no result.
-- Host: Bus is crates/jkr/src/host/bus.rs with the capabilities of crates/jkr-api, Registry is
-- crates/jkr/src/host/loader.rs; the handlers of the bus and the plugins behind their trait are
-- parameters, and a method of a plugin changes that plugin only, since the host that on_load
-- hands it is left out.
-- Mcp: Toon is crates/jkr-mcp/src/toon.rs.
-- Lines, Table: str::lines, and HashMap as an association list.
-- Samples: instances of the parameters and the theorems at small inputs.
--
-- Not modelled: printing, processes, sockets and their queues, reading of TOML and JSON,
-- file-system errors, the other pipelines of stream.rs, and the crates that the components do not
-- name. Release builds are assumed, in which integers wrap around.
pub mod Prelude
pub mod Lines
pub mod Table
pub mod Filter
pub mod Stream
pub mod Mesh
pub mod Broker
pub mod Audit
pub mod Vault
pub mod Sandbox
pub mod Agent
pub mod Recorder
pub mod Host
pub mod Mcp
pub mod Samples
