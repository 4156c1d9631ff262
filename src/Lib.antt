-- ===== src/Lib.antt =====
-- Verification of BrandishBot (Go, internal/...): the core services of the game.
--
-- Parts and the files that model them:
--   Prelude, Shuffle       shared tests, lists and integers over the native numbers; rand shuffles
--   Failure                errors (internal/domain/errors.go), results, transactions
--   Stateful               handlers that change a store step by step, without a rollback
--   Inventory              slots and qualities, FindSlot, FindRandomSlot, RemoveFromSlot,
--                          getShuffledIndices (internal/utils/inventory_find.go, inventory_consume.go)
--   Inventory.Add          AddItemsToInventory, BuildSlotMap (internal/utils/inventory_add.go)
--   Inventory.Consume      ConsumeItemsWithTracking (internal/utils/inventory_consume.go)
--   Inventory.Quality      CalculateAverageQuality (internal/utils/quality.go)
--   Economy                BuyItem and SellItem with their checks and prices (internal/economy)
--   Slots                  the slot machine (internal/slots)
--   Users                  items added, removed and given; timeouts (internal/user)
--   Duel                   challenges, stakes and the coin flip (internal/duel/service.go)
--   Gamble                 starting and joining, refund and award (internal/gamble); Gamble.Execute
--                          is ExecuteGamble, Gamble.Winner determineGambleWinners
--   Lootbox                pools, weighted choices and the boxes of Lootbox.Boxes (internal/lootbox)
--   Cooldown               EnforceCooldown as moves of concurrent requests (internal/cooldown)
--   Jobs                   levels and awards of experience (internal/job)
--   Events                 publishing with retries and dead letters
--                          (internal/event/resilient_publisher.go)
--   Crafting               UpgradeItem and DisassembleItem with their checks (internal/crafting)
--   Compost                bins: Compost.Deposit and Compost.Harvest are Deposit and Harvest, each as
--                          the checks before its transaction and the transaction (internal/compost)
--   Linking                tokens, Linking.Confirm is ConfirmLink, Linking.Unlinks the cache of
--                          unlinks (internal/linking/service.go, internal/database/queries/linking.sql)
--   Quest                  weekly quests, progress and claims (internal/quest)
--   Progression            votes, unlock checks and modifiers with their caches; Progression.Tree is
--                          the search for cycles, Tree.Checks the checks of a configured tree,
--                          Tree.Loader its storing (internal/progression)
--   Examples               concrete stores, calls and applications of the theorems
--
-- Each service is modelled by its handlers: a handler takes the stored state and a record `Calls` of
-- what the repository and the other services answer in that call, in the order in which the source
-- asks. A handler in one database transaction ends in `transact`, which drops every change on an
-- error. Duel handlers move items outside of their transaction and are runs of Stateful.
--
-- Bounds: quantities are natural numbers, as stored quantities are; a request that may be negative is
-- an integer and is checked as the source checks it. What a request adds or takes is at most 10000 items
-- where the source limits it, far from 2^63. It does not limit the wager of a duel: the double of it has
-- the 64 bits of Go's int, and the theorems on duels ask that what the users hold, with the wagers, stays
-- below 2^63, so that no sum wraps. Names, users and items are numbers.
-- Floating point factors that are not exact are parameters; the slot machine's factors are exact
-- multiples of 1/4 and 1/1000. All loops are structural recursion, but three, which run on fuel. The
-- bisections of Lootbox have the number of entries, which is enough since each round brings the bounds
-- closer. The search of Progression.Tree for cycles and the loop that stores the tree have one more than
-- the number of nodes, which is enough since each level of the search marks one more key as being
-- visited, and each pass of the loop that stores anything processes one more node.
--
-- Not modelled: HTTP handlers, the Discord client, SQL and generated queries, configuration, logging,
-- metrics, published events, and the services that no file above names.
pub mod Prelude
pub mod Shuffle
pub mod Inventory
pub mod Lootbox
pub mod Failure
pub mod Economy
pub mod Slots
pub mod Users
pub mod Stateful
pub mod Duel
pub mod Gamble
pub mod Cooldown
pub mod Jobs
pub mod Events
pub mod Crafting
pub mod Compost
pub mod Linking
pub mod Quest
pub mod Progression
pub mod Examples
