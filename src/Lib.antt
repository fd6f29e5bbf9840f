-- ===== src/Lib.antt =====
-- The online shop of apps/boutique/sure: ten services, written in C, that exchange fixed-size messages
-- over unimsg, a library of descriptors of shared buffers. This library models how messages are put
-- together and served, and what the services do with them, and proves when that is right.
--
-- The parts and their files. Paths are from the root of the repository.
--   Prelude: lists with native lengths, integers with C's division and two's complement conversion,
--     Boolean tests, and C strings.
--   Message: the commands and the layout in memory of every struct of
--     apps/boutique/sure/common/service/message.h; get_rpc_size of service.h, which computes from it.
--   Money: MoneySum and MoneyMultiplySlow of apps/boutique/sure/common/service/utilities.h.
--   Service: apps/boutique/sure/common/service/service.h, service_sync.h and service_async.h.
--     Service/Unimsg is the interface of the library unimsg, which is not in the repository. It is a
--     parameter of all that calls it. Service/Process is process_desc, which makes messages of the parts
--     that descriptors hold. Service/Loop is the loop over received descriptors, which handle_socket and
--     handle_downstream share. Service/Sync is a service that answers each request before it reads on
--     (handle_socket, run_service, do_rpc); Service/Async one with a pool of coroutines (coroutine_fn,
--     handle_downstream, both forms of handle_upstream, run_service, do_rpc).
--   Checkout: PlaceOrder of apps/boutique/sure/checkoutservice/main.c, over an interface with its calls of
--     other services; Checkout/Marshal is what each call writes to and reads from its buffer, with
--     Checkout/Rpc, what a buffer holds.
--   Currency: apps/boutique/sure/currencyservice/main.c. Currency/Floating is what it asks of doubles.
--   Frontend: apps/boutique/sure/frontend/main.c. A handler is a tree (Frontend/Calls): it is done, or it
--     makes a call of another service and goes on with the answer. Frontend/Scan is the part of sscanf
--     that is used, Frontend/Pages and Frontend/OrderForm are the handlers, Frontend/Routes is
--     handle_request.
--   Boutique: the frontend and the checkout service over the services above: each call is answered by the
--     handler of the service that it is sent to, and requests follow one another.
--     Boutique/Wires does so through the buffers of the checkout service.
--   Payment, Catalog, Recommendation, Cart, Ads, Shipping: the main.c of paymentservice,
--     productcatalogservice, recommendationservice, cartservice, adservice and shippingservice. The cart
--     service keeps its carts in a map of the vendored library cstl, which Cart/CMap has as an interface.
--   Latency: apps/rr-latency/sure/main.c, a benchmark that sends messages of a size over unimsg and back.
--   Throughput: apps/throughput/sure/main.c, a client of many connections and its server, with the
--     buffers that each holds.
--   LatencyProcess, ThroughputProcess: apps/rr-latency/process/main.c and apps/throughput/process/main.c,
--     the same two benchmarks over stream sockets of Linux. The calls of the system are a parameter, or
--     lists of what they give.
--   Ric: apps/ric/sure/rc/rc_xapp.c, a control application that sends the body of each request back.
--   Steering: apps/ric/sure/ts/ts_xapp.cpp, the traffic steering application that it serves. Steering/Post
--     is its messages and its loop. A read behind the end of a map is a result of its own (undefined).
--
-- State is passed on explicitly. A call of exit(1) is a result of its own (exits, aborts, dies, stops,
-- fails). A loop of the code is structural recursion on the rounds that are left. The loop over
-- descriptors, which may run for ever, has fuel; a loop without fuel left is a result of its own, and a
-- theorem says how much fuel is enough and on which streams no fuel is. int32_t and int64_t
-- results are wrapped, unsigned ones are taken modulo 2 ^ 32. Bytes are numbers, and a descriptor has the
-- bytes that it stands for.
--
-- What is not modelled. What debugging prints; the contents of a buffer behind the bytes of a
-- descriptor; the reuse of a buffer that is given back while a pending message stands in it, as
-- it may when a connection is closed while the response is sent; strings and messages that do not
-- fit into their arrays or buffers, but for the parameters of an order, where this is a result of
-- its own. A handler that runs in a coroutine is a parameter that says what it does up to its
-- next call of do_rpc, as the library libaco is not in the repository; a response for a coroutine
-- that does not wait for one ends the run of the model. The frontend's global currency is passed
-- with its value at the start of a request: requests that set it while another one waits are left
-- out. Counts of messages that the code only compares with numbers are not negative. The amounts
-- of the shipping service are exact hundredths, where the code has doubles. The e-mail service,
-- which only prints, and the other programs beside the shop are not modelled. Of the two
-- benchmarks, times, the setup of sockets, the acceleration by eBPF and the variants for Unikraft
-- are left out, and over unimsg the contents of buffers.
pub mod Prelude
pub mod Money
pub mod Message
pub mod Service
pub mod Payment
pub mod Catalog
pub mod Recommendation
pub mod Cart
pub mod Ads
pub mod Shipping
pub mod Checkout
pub mod Currency
pub mod Frontend
pub mod Boutique
pub mod Latency
pub mod Ric
pub mod Throughput
pub mod LatencyProcess
pub mod ThroughputProcess
pub mod Steering
