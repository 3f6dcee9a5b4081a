-- ===== src/Lib.antt =====
-- A model of xmrig2xdag, a proxy that lets RandomX miners of the xmrig family, which speak the stratum
-- protocol, work for a pool of the XDAG network.
--
-- How the program works. A miner connects (server/tcp) and logs in over JSON-RPC (server/stratum,
-- server/proxy/mining.go). Each miner has a proxy (server/proxy/proxy.go) with a connection to the pool
-- (server/xdag/connect.go). The pool sends fields of 32 bytes; two of them make a job, which the proxy
-- passes on to the miner with the miner's account and a random nonce in it. The miner sends shares; the
-- proxy checks them and sends the best one of four seconds to the pool. A director keeps the proxies in a
-- map (server/utils/safemap.go) and counts their shares. Accounts are base58 text with a checksum
-- (server/base58), and the pool's addresses are 32 characters of six bits (server/xdag/block.go).
--
-- Where it is modelled.
--   SafeMap        server/utils/safemap.go: Get, Set, Del, Range and Size as functions of the map. GoMap is
--                  Go's own map, an association list with each key once.
--   Base58         server/base58/base58.go: Encode and Decode; Base58.Alphabet: alphabet.go and
--                  genalphabet.go; Base58.Check: base58check.go. Base58.Runes is Go's loop over the runes
--                  of a string.
--   Xdag.Address   server/xdag/block.go: Hash2address and Address2hash; Xdag.Block: NewRawBlock and
--                  GenerateFakeBlock; Xdag.Time: server/xdag/time.go.
--   Proxy.Job      server/proxy/job.go; Proxy.Share: server/proxy/share.go.
--   Proxy.State    the struct Proxy of server/proxy/proxy.go, and what handlers do outside of it, as a list
--                  of events. Proxy.Target: CreateJob, CreateShare, MakeShare, getTarget, setTarget.
--                  Proxy.Account: SetAddress. Proxy.Submit: Submit, validateShare and handleSubmit.
--                  Proxy.Notify: handleNotification, handleJob, broadcastJob, NextJob. Proxy.Close:
--                  shutdown, Close, Remove, Add.
--   Proxy.Director server/proxy/director.go: the proxies by their ids, and the count of shares.
--   Proxy.Naming   server/proxy/uniuri.go: the random names of jobs.
--   Proxy.Locking  the mutex connMu between the goroutines of Submit and Run, as a step relation.
--   Proxy.Mining   server/proxy/mining.go: Login, Getjob, Submit and Keepalived; and the worker of
--                  server/tcp/worker.go, which has a proxy until it is nil. Proxy.Mining.Delivery is
--                  the way of a job to the miner.
--   Proxy.Running  connect and Run of server/proxy/proxy.go: the attempts to get a connection, and the
--                  loop that takes shares, fields and the end. Proxy.Running.Stream puts the reader of the
--                  pool connection in front of it, Proxy.Running.Safe is the state that
--                  keeps Run from a panic. Proxy.Detect: server/proxy/detect.go.
--   Xdag.Connection server/xdag/connect.go: senders and the writer as steps in any order, and the
--                  rounds of the reader.
--   Stratum        server/stratum: Stratum.Json is what encoding/json does with a value, Stratum.Request
--                  the checks of server.go, Stratum.Codec codec.go and errors.go, Stratum.Client
--                  client.go.
--   Config         server/config/config.go: the configuration from a file. Logger:
--                  server/logger/logger.go, and setupLogger of server/main.go.
--   Encoding       what the code uses of encoding/binary and encoding/hex.
--   Common         lists, tests, digits of numbers and bits, shared by the rest.
--
-- How it is modelled. Byte slices and strings are lists of numbers below 256. A uint64, uint32 or byte is
-- a natural number, with the wrap-around written out where the code can reach it. Handlers take the state
-- and give the new one; with the times that they read from the clock, and the random numbers that they
-- draw, as arguments. A panic of the code is `none`. Errors are values, told apart as the code's texts
-- are. The floating-point formula of setTarget and SHA-256 are parameters; of SHA-256 the model knows
-- that it gives 32 bytes. The loops over numbers and texts that grow shorter are recursion on
-- accessibility, so that no fuel is needed; loops with a fixed number of rounds count them. The
-- attempts of Run have fuel, one round more than there are retries, with a theorem that it is enough; the
-- reader is followed for a number of rounds. JSON values come as the parser gives them, with the
-- decoding into maps and structs written out, and net/rpc is the order in which the codec is called.
-- Errors of the package jsonrpc2 are a parameter.
--
-- What is not modelled: the network itself, the text of JSON, dialling, the HTTP handler, the listener of
-- server/tcp/server.go, the configuration from the environment, and in server/main.go the flags of the
-- command line, the welcome message and the start of the goroutines. The closing of a proxy's channels is
-- not modelled, nor goroutines other than the two of Proxy.Locking and those of Xdag.Connection: each
-- handler is one step, as the mutexes make it, and who has connMu when Run asks for it comes with Run's
-- inputs, as Proxy.Locking and Proxy.Mining.Delivery tell.
pub mod Common
pub mod GoMap
pub mod SafeMap
pub mod Base58
pub mod Encoding
pub mod Xdag
pub mod Stratum
pub mod Proxy
pub mod Config
pub mod Logger
