-- ===== src/Lib.antt =====
-- The programs of SO_TPE: a fantasy league server with its clients (TPE1) and a small kernel
-- (TPE3; TPE2 is an earlier state of it).
--
-- Prelude: shared names, tests and lists.
--
-- Fantasy, TPE1. A client fills a request, turns it into bytes, and sends these through one of four
-- transports; the server reads the request back, executes it, and answers the same way.
--   Wire            memory as TPE1/src/marshalling/message_serialization.c uses it
--   Wire/Frame      what a row of writes leaves behind
--   Transport       contact messages, TPE1/src/transport/*/*_contact_serialization.c
--   Message/Defs    msg_t of TPE1/src/includes/message.h
--   Message/Encode  serialize_* and serializeMsg
--   Message/Decode  deserialize_* and deserializeMsg
--   Reply           msg_s, serialize_s and deserialize_s
--   Game            TPE1/src/includes/structs.h, and what the handlers of
--                   TPE1/src/server/execute.c run on
--   Game/Text, Game/Answer  TPE1/src/includes/toPrint.h, createMsg_s and
--                   TPE1/src/utils/printColor.c
--   Game/Account    executeRegister, executeLogin, executeLogout
--   Game/Show       the handlers that list and show
--   Game/Leagues    executeJoinLeague, executeCreateLeague
--   Game/Trades     executeTrade, executeTradeWithdraw; Game/Trades/Accept executeTradeAccept,
--                   Game/Trades/Negotiate executeTradeNegotiate
--   Game/Drafts     executeDraft and makeDraft; Game/Drafts/Coordinator coordinator_thread,
--                   changeTurn, autoAsign, checkStatus
--   Game/Execute    execute
--   Game/Steps, Game/Returns, Game/Locks  what the handlers do to the game, that they end, and the
--                   mutex that some leave held; Game/Locks/Waiting a client that waits for a draft
--   Storage         TPE1/src/IO/io.c: how the lines of a file are read; Storage/Numbers and
--                   Storage/Lines how numbers and texts survive that
--   Storage/Objects loadUser, loadTrade, loadTeam, the league's file, loadMatch, loadPlayers, and
--                   userToString, tradeToString, teamToString, leagueToString; reverse and itoa of
--                   TPE1/src/server/execute.c; Storage/Roundtrip one against the other
--   Storage/Folders loadTeams, loadTrades, loadLeague; Folders/Games loadUsers, loadLeagues and
--                   loadGame; Folders/Saved saveUser, saveTeam, saveTrade, saveLeague, saveGame;
--                   Folders/Listing the orders in which readdir may list a folder;
--                   Folders/Files, Folders/Restored, Folders/Leagues, Folders/Users and
--                   Folders/Whole what is saved is loaded
--   Storage/Points  updatePlayers; Points/Totals and Points/Awarded the sums it adds
-- The server loads the game from its folders when it starts, changes it with every request and
-- every match, and saves it when it ends.
--
-- Kernel, TPE3. The timer interrupt runs select_next, which moves tasks between linked queues.
--   Task            struct task of TPE3/include/proc.h, and the memory of all tasks
--   Queue           TPE3/src/proc.c: pop, empty, add_to_queue, remove_from_q
--   Scheduler       TPE3/src/scheduler.c: the globals, select_next, suspend_task, unsuspend_task
--   Scheduler/Process  CreateProcess, terminate_task, cleaner, null_process, SetupScheduler
--   Keyboard        TPE3/src/drivers/keyboard.c: insertKey, getKey, parseKey
--   Keyboard/Tables its tables of bytes; Keyboard/Ring the ring, Keyboard/Typed what keys write
--   Paging          TPE3/src/auxMem.c: initpages, presentPageNumber, absentPageNumber
--   Strings         TPE3/src/strings.c
--
-- An int is its 32-bit pattern. Where the code adds to one the sum wraps around: the counters and
-- points of the game, the sizes of messages, the numbers of Strings and the addresses of Paging. The
-- sizes of the task queues, the positions in a file and the sizes of the texts that are saved are
-- natural numbers. remove_from_q walks with size + 1 rounds of fuel, which a queue that holds a list
-- of size tasks never uses up; the loop of null_process has one round for each terminated task; itoa
-- has ten rounds, the digits of an int. malloc of TPE1 is taken to succeed where its size is not
-- negative; how many bytes it really gives is a parameter where executeTrade asks for too few.
-- parseKey writes through NULL, where a keyboard may stand. ready_tasks has five queues, and
-- CreateProcess with a priority past them is a fault.
-- The lists of the league server are lists of contents, a handler runs to its end before another
-- thread, and the loops of a draft are given round by round. A file is its bytes, a folder the list
-- of its entries in an order that is a parameter; a league is saved into a folder that is empty, and
-- file names hold no '/'. Other input and output, the transports' system calls, threads, the video
-- memory, the interrupt descriptors and the assembly files are not modelled.
pub mod Prelude
pub mod Fantasy
pub mod Kernel
mod Tests
