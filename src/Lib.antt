-- ===== src/Lib.antt =====
-- Trustflow: the attestation library, the data capsule proxy and the RA proxy, modelled and verified.
--
-- The program. A TEE makes an attestation report (trustflow/attestation/generation, with collateral
-- from trustflow/attestation/collateral). A relying party gives the report and a policy to
-- trustflow/attestation/verification: a factory chooses the platform's verifier, which verifies the
-- platform (the quote's signatures and collateral), parses the report to attributes, and holds these
-- against the alternatives of the policy. The wrappers turn exceptions to codes, for C++ and for C.
-- The data capsule proxy (trustflow/proxy) fetches input files from an object store or a directory
-- and decrypts them, and encrypts result files and puts them there, in blocks under AES-GCM; the keys
-- come from the request or from the capsule manager, which is asked in signed and encrypted messages
-- with a report over their hash. The RA proxy hands out a certificate with a report.
--
-- The files.
--   Base: the names that all modules share: Boolean tests, lists measured by native numbers, byte
--     strings, facts on `bit_or` and `bit_xor`, signed integers, decimal numbers.
--   Error: exceptions of yacl as values, and `Result`, whose `undefined` is undefined behaviour.
--   External: absl, yacl and fmt as a record of functions with their documented behaviour, and an
--     instance of it.
--   Attestation: trustflow/attestation/common/constants.h and utils/json2pb.h, the `ual` messages,
--     and reads through pointers.
--   CryptoUtil: trustflow/proxy/utils/crypto_util.h and crypto_util.cc. Word is `Bytes2Int`; Block
--     is `DecryptDataBlock` and `EncryptDataBlock`; File is `DecryptFile` and `EncryptFile`. The
--     streams, spans and ciphers are the record `Platform`. Disk is what is taken from
--     std::filesystem, Tasks the loops with their threads and futures, Directory is `DecryptToDir` and `EncryptToDir`
--     (Safe, Unordered: threads that do not depend on their order nor on the rounds; Decrypted,
--     RoundTrip: one call, and both).
--   Action: code with a state that may throw, and keeps the state then.
--   Proxy: trustflow/proxy. Ra is utils/ra_util.cc and ra_proxy/ra_proxy.cc; Jwe is the JWE part of
--     utils/crypto_util.h, with `X509CertPemToDer` in Cert; Client is
--     data_capsule_proxy/capsule_manager_client.cc (Messages: what it sends, Exchange: what a call
--     has sent and received); Oss is oss_client.cc (Store: an object store at work); Capsule is
--     data_capsule_proxy.cc (RoundTrip: results that are put and got back, Uploaded and Downloaded: by
--     way of the object store); Log is utils/log.cc; Main is the two main.cc with utils/io_util.cc.
--   Verification: trustflow/attestation/verification. Attributes is interface/verifier.cc, with
--     `std::stoi` in Stoi (Policy: what an alternative asks, Compare and Match: the
--     comparisons); Csv is csv/csv_verifier.cc (Mask: the masked fields, Chain: the chain of
--     certificates, Report: `Init` and `ParseUnifiedReport`); Dcap is what sgx2/sgx2_verifier.cc and
--     tdx/tdx_verifier.cc share word by word, Sgx2 and Tdx are what they do not; Factory is
--     verifier_factory.h and `VerifyReport`; Wrapper is wrapper/ and common/status.h.
--   Collateral: intel_collateral.cc and hygon_collateral.cc.
--   Generation: the three generators; Intel is sgx2_generator.cc and tdx_generator.cc, Csv is
--     csv_generator.cc, Wrapper is interface/generator.cc and wrapper/, SampleMain is
--     trustflow/attestation/sample/generation/main.cc.
--   Evidence: a report of generation at the wrapper of verification; Verified is about SGX, Tdx
--     about TDX, Made and Judged are what they share.
--   A module named Laws, or after what it proves, holds the proofs; one named Tests the concrete
--   instances.
--
-- How code becomes definitions. A function that may throw returns a `Result`; a function that changes
-- an object or an output parameter returns what it is afterwards; what a function writes to a file is
-- its result. C structs of vendors' headers are lists of bytes, and their layouts and sizes are
-- records of parameters. OpenSSL, Intel's quote verification library, drivers, HTTP, base 64 and the
-- JSON conversions of protobuf are parameters too. Unsigned arithmetic keeps its wrap-around: the
-- products of `DecryptFile` are taken modulo 2 ^ 64, sizes of C strings and the index in
-- `CharArray2String` modulo 2 ^ 32.
--
-- Handlers of RPC calls are state transformers over the state of everything outside: files, services
-- and random values; calls of gRPC, of the object store's SDK and of std::filesystem are functions on
-- that state. The threads that the loop over a directory launches end between its rounds or after
-- it, as a schedule says, which is any list of steps, a round of the loop or the end of a thread; the
-- rounds that the schedule leaves out come after it, then the threads that are still running. A
-- thread reads and writes in one step. Where a theorem is about any schedule, it asks that the loop
-- and the threads keep out of each other's way: what one reads no other writes, and what one writes
-- no other writes, but for threads with the same source.
--
-- Bounds and fuel. Every loop is structural recursion, over a list, a number of blocks or words of
-- data, but for the loop that reads a certificate from a memory BIO: it has as many rounds as `fuel`
-- says, and more than the length of the certificate are enough. `to_string` works out twenty digits,
-- which hold every number of 64 bits.
--
-- Not modelled: deadlines and message sizes of gRPC, contexts and content types of the RPC servers,
-- `Create` from a JSON text in the constructors, the lines that are logged, the bindings of other
-- languages and what protobuf generates. What a directory iterator visits is fixed when its loop
-- begins, so a file made in the directory meanwhile is not visited.
pub mod Base
pub mod Error
pub mod Action
pub mod External
pub mod Attestation
pub mod CryptoUtil
pub mod Verification
pub mod Collateral
pub mod Generation
pub mod Evidence
pub mod Proxy
