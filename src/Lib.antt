-- ===== src/Lib.antt =====
-- Verification library of the IoT lab programs: the layer-4 load balancer of L4LB/ and the network
-- programs of the labs.
--
-- Common            Boolean tests, arrays as lists, machine words, results that may be missing, C
--                   strings and lines.
-- Net               Bytes in memory, the fields of IP and TCP headers, and `checksum` of
--                   L4LB/LoadBalancer.c and lab04/src/tcp_client_raw.c.
-- Balancer          L4LB/LoadBalancer.c. Balancer.antt has the globals as a record; Servers, Select,
--                   Nat, Clients, Ready and Loop have one function for each C function and for each
--                   branch of the event loop in `main`; Tables, Choice, Invariant, Progress,
--                   Translate and Faults prove what follows. Backends puts the balancer together
--                   with a server of L4LB/echo_EPLTserv.c.
-- Chat              lab05/lab05_src/chat_serv.c. The shared list of clients is the record Chat;
--                   `join`, `send_msg` and `leave` are the critical sections of main, send_msg and
--                   handle_clnt. Threads has main and the threads as a step relation, in which they
--                   take turns in any order; Leave is about one critical section by itself.
--                   Client is lab05/lab05_src/chat_clnt.c, with the buffers in Bounds and what
--                   comes through the server to another client in Shown.
-- Websocket         lab07/simple_ws_client.c. `text_frame`, `close_frame` and `read_reply` are the
--                   parts of main that build and read frames; Frames and Replies hold a decoder and
--                   an encoder by RFC 6455 for the other side. Session is main from the handshake
--                   to the close frame.
-- Raw               lab04/src/tcp_client_raw.c. `make_tcp_header` and `make_ip_header` are lists of
--                   bytes; Session has the handshake and the data loop of main, over the lists of
--                   what `recv` and `fgets` return; Headers is the receiver's side of a packet,
--                   Transfer that of a connection.
-- Echo              lab05/lab05_src/echo_EPLTserv.c (echo_epollserv.c has the same loop) and
--                   echo_EPETserv.c, with the streams of bytes in Streams; L4LB/echo_EPLTserv.c, the
--                   server that the balancer chooses, in Backend, with its reports in Reports and with
--                   the balancer in Balancer/Backends. Select is lab05/lab05_src/echo_selectserv.c.
--                   Clients has L4LB/echo_client.c and lab05/lab05_src/echo_client.c.
-- Upload            lab05/lab05_src/fileup_serv_dir/fileup_serv.c and lab05/lab05_src/fileup_serv.c,
--                   with the rows of single clients in Rows, what the clients send in Protocol and the
--                   rows that stand for them in Refined, and one client's file among those of others
--                   in Written, Alone and Interleaved; lab05/lab05_src/fileup_clnt.c in Client.
-- Stream            lab06/include/MemoryStream.h and lab06/lib/MemoryStream.cpp. Bits has the bit fields
--                   by themselves, Output and Partial what a written stream holds, Input what a read
--                   one gives; Swap is lab06/include/ByteSwap.h.
-- Capture           lab03/src/capture.c: the reports of frames; Frames has those of the packets that
--                   Raw builds.
-- Tcp               lab04/src/tcp_client.c and lab04/src/tcp_server.c, with the lines that come through
--                   in Shown.
-- Student           lab06/student: Student.cpp on these streams, and one exchange of StudentClnt.cpp
--                   and StudentServ.cpp. Fields and BitFields have the wire format.
-- Mqtt              lab09/basic_pub.c, multiple_pub.c, basic_sub.c, multiple_sub.c and
--                   mqtt_chat_client.c, as lists of calls of the MQTT library; Protocol has the order
--                   of the calls, Messages the lines of the chat client.
--
-- Sockets           lab06/lib/TCPSocket.cpp and lab06/lib/SocketUtil.cpp, with `select` as a parameter;
--                   EchoServ is lab06/TCPSocket_Class/EchoSelectServ.cpp. The sources in
--                   lab06/TCPSocket_Class are those of lab06/lib.
--
-- Not modelled: the addresses and the text functions of lab06, the Python script of lab07, the first
-- version of the capture and the list of interfaces of lab03, the select demo of lab05. They print
-- what the system returns, or pass bytes between a terminal and a socket.
--
-- How C is read. An `int` is its pattern below 2 ^ 32, so -1 is 2 ^ 32 - 1 and `<` on `int`s is
-- `signed_lt`. A buffer is a list of bytes; a struct laid over it is read and written at the offsets
-- of RFC 791 and RFC 9293, little-endian, as on the machines that the programs run on. `none` is
-- undefined behaviour: an access outside an array, a variable that was never set, a `memcpy` past
-- its buffer, a loop that does not end. `debug` and `printf` are left out, and so is the set-up of
-- sockets before the loops.
--
-- Bounds and fuel. The round-robin loop has fuel 5, the number of slots: one turn visits each slot
-- once. The loop of fileup_clnt.c has the file's length plus one, since each round but the last takes
-- bytes off the file. The loop of mqtt_chat_client.c has the input's length, since `fgets` takes at
-- least one byte, and the loop over descriptors in echo_selectserv.c has FD_SETSIZE plus one.
-- The sending loops of chat_clnt.c and tcp_client.c, which need not end, run for any number of rounds;
-- one round more than the lines typed is enough for the line that quits. All other loops are
-- recursion on a list.
--
-- Parameters. What `rand` returns after `srand` of a seed is a function. What `accept`, `recv`,
-- `read` and `epoll_wait` return are the events that the model is run on; an `accept` that
-- fails is modelled in Tcp and Sockets only, and a `recv` of the balancer that does not at all. What `fopen` makes of a file's
-- name is a function. What a block of the heap holds before it is written, and whether `char` is
-- signed, are parameters of Stream and Student; lab07/simple_ws_client.c is read with `char` signed.
-- What the calls of the MQTT library return are Booleans, and `random` is a function.
pub mod Common
pub mod Net
pub mod Balancer
pub mod Chat
pub mod Websocket
pub mod Raw
pub mod Echo
pub mod Upload
pub mod Stream
pub mod Student
pub mod Capture
pub mod Mqtt
pub mod Sockets
pub mod Tcp
