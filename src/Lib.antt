-- ===== src/Lib.antt =====
-- Verification of pyserum, a client for the Serum DEX: decoding of the accounts of a market, reading of
-- its order books and queues, building and decoding of the instructions of its program, and the clients
-- that load the accounts from a server and send transactions to it.
--
-- The accounts are byte strings that layouts of the construct package parse. A market's account
-- (pyserum/market/state.py) names the accounts of its two sides, each an order book
-- (pyserum/market/orderbook.py) over a slab, a critical-bit tree in an array
-- (pyserum/market/_internal/slab.py), and of its request and event queues, which are ring buffers
-- (pyserum/market/_internal/queue.py). The instructions of pyserum/instructions.py are lists of
-- accounts with data that a layout builds. MarketCore (pyserum/market/core.py) puts them together to
-- transactions, and Market and AsyncMarket (pyserum/market/market.py, pyserum/market/async_market.py)
-- ask a server for the accounts, by pyserum/utils.py and pyserum/open_orders_account.py, and send the
-- transactions with their signers.
--
-- Files:
--   Base            numbers, Boolean tests, lists, bytes, Python's integers, results of code that raises
--   Construct       the construct package as an interface (Interface), its codecs under the names of the
--                   layouts (Names), and what layouts parse and build, member by member (Parses, Sizes,
--                   Flags, RoundTrips)
--   Solana, Floats  the solana package and Python's floating-point numbers as interfaces
--   Layouts         pyserum/_layouts: each layout, and the encoding that it parses
--   Slab            pyserum/market/_internal/slab.py: classes, get and items (Defs), from_bytes (Decode),
--                   the tree of a slab (Tree), iteration (Items), search (Get), the order of keys (Order),
--                   the wire form (Wire), the loops on any slab (Fuel, Termination)
--   Market          pyserum/market/state.py: MarketState (State), its decoding (Decode) and its loading
--                   (Load, Loaded)
--   OrderBook       pyserum/market/orderbook.py: the class (Defs), runs of one price (Group), get_l2
--                   (Levels, Sides), orders (Orders), decoding (Decode)
--   Queue           pyserum/market/_internal/queue.py: the functions (Defs), rings (Ring), slots of a
--                   buffer (Slots), decoding for items of any kind (Decode) and of both kinds (Kinds)
--   OpenOrders      pyserum/open_orders_account.py: from_bytes, the request for accounts and the reading of
--                   its answer (Query, Find), and what they give (Answers)
--   Instructions    pyserum/instructions.py and pyserum/_layouts/instructions.py: the layout (Layout), the
--                   named tuples (Params), building (Build) and decoding (Decode), and round trips (Data,
--                   Decoded, Current, ConsumeEvents)
--   Wallets         the system and token programs of the solana and spl packages as an interface
--   Net             what servers answer (Json), code that asks them (Action, with Steps and Ensures), the
--                   solana package's client as an interface (Client), pyserum/utils.py (Utils, Fetch) and
--                   what it reads (Answers)
--   Connection      pyserum/connection.py: the parsing of the lists of markets and tokens
--   Core            pyserum/market/core.py: the packages together (Packages), the class and its parsing
--                   (Defs), its instructions (Instruct), lamports (Wrapping), transactions for orders (Draft)
--                   and for settling (Settle); signatures (Signers, Signed, SettleSigned), drafts
--                   (Drafts), orders placed (Placed), orders owned (Owned), fills (Fills), lamports
--                   that wrapping takes (Lamports)
--   Clients         pyserum/market/market.py and pyserum/market/async_market.py: the methods (Defs), what is
--                   loaded (Loads), and what is sent (Orders, Settlements, Signed, Sent)
--   Tests           concrete functions for the interfaces, accounts, and the theorems at them
--
-- Python's integers are the native numbers where the code keeps them above zero, as it does for all
-- that a layout parses, and ℤ elsewhere; a field of a layout has a width, and the theorems say which
-- numbers fit. The bytes that a layout skips, its padding and the spare bits of flags, may be anything
-- in an encoding. A history and a limit of fills are of ℤ. An exception is a value of Error. A generator is the items that it yields and how it
-- ends. The loops of Slab.get and Slab.items take fuel, a bound on their rounds: the height of the tree
-- is enough for get and its number of nodes for items. On any other slab without a cycle, where the
-- children of a node rank below it, one round more than the rank of the root is enough for get. Without
-- fuel they raise out_of_fuel, which no code does. The lots of an order are natural numbers from the
-- tests on that they are not negative.
--
-- Code that asks a server is a function on the world outside the program, whose result is an exception
-- or a value, together with the new world; the world holds the server's state and the source of random
-- keys. The lists of signers and of instructions that the methods of MarketCore append to are a Draft,
-- which they take and return; once a method raises, nothing reads the lists again. The asynchronous
-- classes and functions await each call at once, so that they run the same steps; only settle_funds
-- differs, and both its versions are modelled.
--
-- The construct and solana packages and the floating-point numbers are parameters, with their documented
-- behaviour as laws. The members of the IntEnum classes that instructions carry are their numbers.
--
-- Not modelled: get_live_markets and get_token_mints, which fetch a web page and hand it to the parsing
-- in Connection; the methods of MarketCore that only raise NotImplementedError; the constructors of
-- clients; the layouts' names for debugging; setup.py and docs/conf.py, which have no logic.
pub mod Base
pub mod Construct
pub mod Layouts
pub mod Solana
pub mod Floats
pub mod Market
pub mod Net
pub mod Wallets
pub mod Slab
pub mod OrderBook
pub mod Queue
pub mod OpenOrders
pub mod Instructions
pub mod Connection
pub mod Core
pub mod Clients
mod Tests
