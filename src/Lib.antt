-- ===== src/Lib.antt =====
-- A host computer that runs Linux uses the Wi-Fi of an ESP8266 over a serial line. The program has
-- two halves: a kernel module on the host, in uart_wifi_driver, and the firmware of the ESP8266, in
-- uart_wifi_passthrough. IP packets travel in frames, two bytes of length (little endian), the data,
-- and the byte SPLIT_DATA, which a receiver looks for after an error; the host sends SSID and
-- password in frames that end with SPLIT_CMD, and the firmware its addresses.
--
-- Which file models what
--
-- - Frame: the constants of uart_wifi_driver/common.h and uart_wifi_passthrough/main/common.h, the
--   int16_t length, the search for a split byte, and the frame as a specification. Frame/Parse has the
--   facts about the bytes of a frame.
-- - Driver/Receive: ttyio_receive_data and alloc_new_skb_to_recv of uart_wifi_driver/uart.c, one
--   function per `case`; `receive_chunks` are the calls of the tty layer. Driver/Receive/Bounds has the
--   bounds, Driver/Receive/Step and Driver/Receive/Stream good streams, Driver/Receive/Search and
--   Driver/Receive/Resync the search for a split byte in a chunk.
-- - Driver/Info: ttyio_netif_info, transform_netif_info and ttyio_receive_buf2 of uart_wifi_driver/uart.c,
--   and str_show_connect_info of uart_wifi_driver/main.c. `LineDiscipline` joins its state with that of
--   Driver/Receive. Driver/Info/Bounds has the bounds, Driver/Info/Step and Driver/Info/Accept good
--   blocks, Driver/Info/Text the text that is printed of them, Driver/Info/Hang blocks that the loop never leaves.
-- - Driver/Device: ttyio_init of uart_wifi_driver/uart.c, and the callbacks of uart_wifi_driver/netdev.c:
--   uart_wifi_open, uart_wifi_stop, gpio_irq_handler and esp8266ex_init_work_handler, which is a function
--   of the place where the work sleeps. Driver/Device/Run is the relation in which they interleave with
--   the serial driver, the stack and the sysfs files; Driver/Device/Safety its invariant,
--   Driver/Device/Turn, Driver/Device/Watch and
--   Driver/Device/Resets the work alone, Driver/Device/Open the results of uart_wifi_open.
-- - Driver/Xmit: uart_wifi_xmit of uart_wifi_driver/netdev.c and ttyio_write_wakeup of
--   uart_wifi_driver/uart.c. The operations of the tty are the parameter `TtyOps`.
-- - Driver/Settings: str_store and str_show of uart_wifi_driver/main.c, and the two writes of
--   esp8266ex_init_work_handler of uart_wifi_driver/netdev.c. Driver/Settings/Frames is about the frames,
--   Driver/Settings/Show about what is shown.
-- - Driver/Probe: uart_wifi_probe, uart_wifi_remove, uart_wifi_drv_init and uart_wifi_drv_exit of
--   uart_wifi_driver/main.c, netdev_init and uart_wifi_stats64 of uart_wifi_driver/netdev.c;
--   Driver/Probe/Texts is about one property, Driver/Probe/Outcome about every answer of kernel and
--   device tree.
-- - Dump: the hexadecimal dumps of uart_wifi_driver/dump.c and of both files of
--   uart_wifi_passthrough/main; Dump/Text and Dump/Hex compare them with the text they are to show,
--   Dump/Parts is about the dumps of an skb. The receivers of the driver use `dump_overflows`: whether the
--   dump of a chunk or of an skb, which they call, writes behind its array.
-- - Esp/Uart, Esp/Config and Esp/Forward: uart_wifi_passthrough/main/uart2wifi.c: the receive FIFO and
--   the globals, then recv_ssid, recv_passwd and recv_netif_info, which are one loop with different
--   tests, then uart2wifi.
-- - Esp/Queue: the thread safe queue of uart_wifi_passthrough/main/wifi2uart.c, a linked list on a
--   heap. Esp/Queue/Cells is the list as a mathematical list, Esp/Queue/Refine the abstract FIFO,
--   Esp/Queue/Clear what queue_clear and queue_destroy free (its loop has a round for each element as fuel).
-- - Esp/Send: the rest of wifi2uart.c: uart_wifi_recv, wifi2uart and send_to_uart0_sync. `Event` and
--   `perform` are the calls of the two tasks, one after the other: each queue operation holds the
--   mutex for the whole of its work, and only the main loop touches the send buffer.
-- - Esp/Main: uart_wifi_passthrough/main/main.c: start_hock, wifi_event_handler, and the relation of the
--   steps of init, app_main, lwIP's packets and the task that delivers events. Esp/Main/Start is the
--   handshake, Esp/Main/Sound and Esp/Main/Safety the invariant. An event is one step: it is not interrupted by the main loop.
-- - Link: what one half writes, as the other half reads it: data to the host, data to the firmware,
--   the settings, the handshake of the addresses, and the start of both sides in Link/BringUp.
-- - Base: names of the libraries, Boolean tests, list lemmas. Tests: the theorems at concrete inputs.
--
-- State and results
--
-- The state of a part is a record of the globals, or of the fields of struct uart_wifi_struct, that it
-- uses; a buffer is the list of its valid bytes. A call returns a value of a result type that has a
-- case of its own for a write behind a buffer or a read of a dangling pointer. Answers of the
-- surroundings (an allocation, the mutex, the Wi-Fi interface, the fill of a FIFO) are arguments.
--
-- Bounds and fuel
--
-- A length is a bit pattern of 16 bits, and the sums that the code keeps in uint16_t, uint8_t or 64 bits
-- are reduced. The `restart:` loops run on fuel: four rounds for each byte of the chunk and two for
-- each in the skb in the driver (`rounds` of Driver/Receive), two for each byte that is in the FIFO or
-- the buffer in the firmware. Each round shortens a measure that is below the fuel. The loop of ttyio_netif_info has no bound:
-- its fuel is an argument.
--
-- Not modelled: kernel and SDK log lines, but for the text of the dumps, and in the receivers of the
-- driver whether a dump writes behind its array; uart_wifi_receive of
-- uart_wifi_driver/netdev.c, which nothing calls; the set-up of pins, flash and Wi-Fi in
-- uart_wifi_passthrough/main/main.c, which calls the SDK; the wait of str_show_connect_info; the locks of
-- the settings. Two calls of `output` of the Wi-Fi interface differ only in their answer.
pub mod Base
pub mod Driver
pub mod Dump
pub mod Esp
pub mod Frame
pub mod Link
pub mod Tests
